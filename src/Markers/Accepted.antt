-- ===== src/Markers/Accepted.antt =====
-- When `check` of check_read_markers.py finds nothing wrong with a file of cases.
use construct_protos.Prelude.{
  ◌≡◌, refl, ap, subst, ◌↔◌, List, [], ◌∷◌, Bool, true, All, ◌==◌, arith, length, and_inv,
}
use construct_protos.Prelude.Result.{ok, err, Raises, bind_ok, ok_injective, err_ne_ok, ◌>>=◌}
use construct_protos.Prelude.Checks.{check-nil, append-nil_iff, concat-map-nil, All-map_iff}
use construct_protos.Bytes.{Bytes}
use construct_protos.Bytes.Struct.{bytes_eq_iff}
use construct_protos.Proto.{utf8}
use construct_protos.Markers.{
  Verdict, drop, apply, ignore, want_apply, want_covers, later, bytes_gt,
}
use construct_protos.Markers.Cases.{
  Text, Stated, DecodeCase, ApplyCase, CoversCase, Vectors, stated_eq, decode_eq, verdict_eq,
  bool_eq, check_decode, check_apply, check_covers, build, built_apply, built_covers, vectors_of,
  errors,
}

stated_eq→eq : (ss ts : List Stated) → stated_eq ss ts ≡ true → ss ≡ ts
unfolding stated_eq
stated_eq→eq [] [] e = refl
stated_eq→eq [] (t ∷ ts) e = cc
stated_eq→eq (s ∷ ss) [] e = cc
stated_eq→eq (s ∷ ss) (t ∷ ts) e =
    let (partner, e') = and_inv _ _ e in
    let (id, e'') = and_inv _ _ e' in
    let (sent, rest) = and_inv _ _ e'' in
    let p = (bytes_eq_iff _ _).0 partner in
    let q = (bytes_eq_iff _ _).0 id in
    let r : s.last_read_sent_at_ms ≡ t.last_read_sent_at_ms = ground (arith, sent) in
    let tail = stated_eq→eq ss ts rest in
    λ i.
      record { partner_user_id = p i; last_read_message_id = q i; last_read_sent_at_ms = r i }
      ∷ tail i

stated_eq_refl : (ss : List Stated) → stated_eq ss ss ≡ true
unfolding stated_eq
stated_eq_refl [] = refl
stated_eq_refl (s ∷ ss) =
    rw
      (
        (bytes_eq_iff s.partner_user_id s.partner_user_id).1 refl,
        (bytes_eq_iff s.last_read_message_id s.last_read_message_id).1 refl,
        stated_eq_refl ss,
      )
      (ground arith)

decode_eq_iff : (a b : DecodeCase) → (decode_eq a b ≡ true) ↔ (a ≡ b)
unfolding decode_eq
decode_eq_iff a b = (
  λ e.
      let (name, e') = and_inv _ _ e in
      let (markers, payload) = and_inv _ _ e' in
      let p = (bytes_eq_iff _ _).0 name in
      let q = stated_eq→eq _ _ markers in
      let r = (bytes_eq_iff _ _).0 payload in
      λ i. record { name = p i; markers = q i; payload = r i },
  λ e.
      subst (λ c. decode_eq a c ≡ true) e
        (rw
          (
            (bytes_eq_iff a.name a.name).1 refl,
            stated_eq_refl a.markers,
            (bytes_eq_iff a.payload a.payload).1 refl,
          )
          refl),
)

-- The pairs of zip agree and the lists are of one length: they are equal.
decode_iff :
    (as' bs : List DecodeCase)
    → ((check_decode as' bs ≡ []) × (length as' ≡ length bs)) ↔ (as' ≡ bs)
unfolding check_decode
decode_iff [] [] = (λ h. refl, λ e. (refl, refl))
decode_iff [] (b ∷ bs) = (λ h. absurd (omega (arith, h.1)), λ e. cc)
decode_iff (a ∷ as') [] = (λ h. absurd (omega (arith, h.1)), λ e. cc)
decode_iff (a ∷ as') (b ∷ bs) = (
  λ h.
      let (front, behind) = (append-nil_iff _ _).0 h.0 in
      let p = (decode_eq_iff a b).0 ((check-nil _ _).0 front) in
      let q = (decode_iff as' bs).0 (behind, omega (arith, h.1)) in λ i. p i ∷ q i,
  λ e.
      let p : a ≡ b = cc in
      let q : as' ≡ bs = cc in
      let (none', len) = (decode_iff as' bs).1 q in
      (
        (append-nil_iff _ _).1 ((check-nil _ _).1 ((decode_eq_iff a b).1 p), none'),
        omega (arith, len),
      ),
)

verdict_eq_iff : (v w : Verdict) → (verdict_eq v w ≡ true) ↔ (v ≡ w)
verdict_eq_iff drop drop = (λ e. refl, λ e. refl)
verdict_eq_iff drop apply = (λ e. cc, λ e. cc)
verdict_eq_iff drop ignore = (λ e. cc, λ e. cc)
verdict_eq_iff apply drop = (λ e. cc, λ e. cc)
verdict_eq_iff apply apply = (λ e. refl, λ e. refl)
verdict_eq_iff apply ignore = (λ e. cc, λ e. cc)
verdict_eq_iff ignore drop = (λ e. cc, λ e. cc)
verdict_eq_iff ignore apply = (λ e. cc, λ e. cc)
verdict_eq_iff ignore ignore = (λ e. refl, λ e. refl)

bool_eq_iff : (a b : Bool) → (bool_eq a b ≡ true) ↔ (a ≡ b)
bool_eq_iff a b = ground arith

check_apply_iff :
    (c : ApplyCase)
    → (check_apply c ≡ []) ↔ (c.result ≡ want_apply c.from_own_account c.held c.marker)
unfolding check_apply
check_apply_iff c = (
  λ e. (verdict_eq_iff _ _).0 ((check-nil _ _).0 e),
  λ e. (check-nil _ _).1 ((verdict_eq_iff _ _).1 e),
)

check_covers_iff :
    (c : CoversCase) → (check_covers c ≡ []) ↔ (c.read ≡ want_covers c.boundary c.message)
unfolding check_covers
check_covers_iff c =
    (λ e. (bool_eq_iff _ _).0 ((check-nil _ _).0 e), λ e. (check-nil _ _).1 ((bool_eq_iff _ _).1 e))

abbrev pub StatesRule : ApplyCase → Type 0
StatesRule c = c.result ≡ want_apply c.from_own_account c.held c.marker

abbrev pub StatesCover : CoversCase → Type 0
StatesCover c = c.read ≡ want_covers c.boundary c.message

-- `check` finds nothing exactly if protoc encodes both texts, the decode cases are those built from
-- them, every apply case states the verdict of the rule, and every covers case whether its boundary
-- covers its message.
pub errors-nil_iff_rules :
    (encode : Text → Raises Bytes) (v : Vectors)
    → (errors encode v ≡ ok [])
      ↔ (built : Vectors) × (build encode ≡ ok built)
        × (v.decode ≡ built.decode)
        × All StatesRule v.apply_cases
        × All StatesCover v.covers
unfolding errors
errors-nil_iff_rules encode v = (
  λ e.
      let (built, b, found) = bind_ok (build encode) _ e in
      let (d, found') = (append-nil_iff _ _).0 (ok_injective found) in
      let (n, found'') = (append-nil_iff _ _).0 found' in
      let (a, c) = (append-nil_iff _ _).0 found'' in
      let n' : (length v.decode == length built.decode) ≡ true = (check-nil _ _).0 n in
      (
        built,
        b,
        (decode_iff _ _).0 (d, ground (arith, n')),
        (All-map_iff check_apply_iff _).0 ((concat-map-nil _ _).0 a),
        (All-map_iff check_covers_iff _).0 ((concat-map-nil _ _).0 c),
      ),
  λ (built, b, d, a, c).
      let (none', len) = (decode_iff _ _).1 d in
      rw b (
        ap ok (
          (append-nil_iff _ _).1 (
            none',
            (append-nil_iff _ _).1 (
              (check-nil _ _).1 (ground (arith, len)),
              (append-nil_iff _ _).1 (
                (concat-map-nil _ _).1 ((All-map_iff check_apply_iff _).1 a),
                (concat-map-nil _ _).1 ((All-map_iff check_covers_iff _).1 c),
              ),
            ),
          ))),
)

apply_tables : All StatesRule built_apply
unfolding built_apply want_apply later bytes_gt utf8
apply_tables = (refl, (refl, (refl, (refl, (refl, (refl, (refl, tt)))))))

covers_tables : All StatesCover built_covers
unfolding built_covers want_covers later bytes_gt utf8
covers_tables = (refl, (refl, (refl, (refl, (refl, tt)))))

built_tables :
    (two empty : Raises Bytes) (v : Vectors)
    → (two >>= (λ t. empty >>= (λ u. ok (vectors_of t u)))) ≡ ok v
    → All StatesRule v.apply_cases × All StatesCover v.covers
unfolding vectors_of
built_tables (ok t) (ok u) v h =
    let e = ok_injective h in
    (
      subst (λ w. All StatesRule w.apply_cases) e apply_tables,
      subst (λ w. All StatesCover w.covers) e covers_tables,
    )
built_tables (ok t) (err x) v h = absurd (err_ne_ok h)
built_tables (err x) empty v h = absurd (err_ne_ok h)

-- Whatever protoc encodes the two texts as, `check` finds nothing in the file that `build` returns.
pub build-accepted :
    (encode : Text → Raises Bytes) (v : Vectors) → build encode ≡ ok v → errors encode v ≡ ok []
unfolding build
build-accepted encode v h =
    let tables = built_tables (encode _) (encode []) v h in
    (errors-nil_iff_rules encode v).1 (v, h, refl, tables.0, tables.1)
