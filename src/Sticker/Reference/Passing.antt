-- ===== src/Sticker/Reference/Passing.antt =====
-- When the script returns 0.
use construct_protos.Prelude.{
  ℕ, ◌≡◌, ◌≤◌, ◌↔◌, ◌∙◌, refl, sym, ap, subst, List, [], ◌∷◌, Bool, true, false, ◌&&◌, leb, ◌==◌,
  All, and_inv, map, length, arith,
}
use construct_protos.Prelude.Result.{ok, Raises, ok_injective, bind_ok}
use construct_protos.Prelude.Checks.{append-nil_iff, All-map_iff}
use construct_protos.Bytes.{Bytes}
use construct_protos.Bytes.Hex.{hex, fromhex}
use construct_protos.Proto.{utf8}
use construct_protos.Proto.Decode.{is_scalar}
use construct_protos.Sticker.{Rules, Case, computed, same, cases_agree}
use construct_protos.Sticker.Spelled.{Spelled}
use construct_protos.Sticker.Reference.{
  Vector, Mistake, check_vector, check_vectors, passes, is_empty,
}
use construct_protos.Sticker.Reference.Printed.{printed}
use construct_protos.Sticker.Reference.Accepted.{check_vector-nil_iff}

vectors-nil :
    (protoc : Bytes → Raises (List ℕ)) (vs : List Vector)
    → (check_vectors protoc vs ≡ ok []) ↔ All (λ v. check_vector protoc v ≡ ok []) vs
unfolding check_vectors
vectors-nil protoc [] = (λ e. tt, λ h. refl)
vectors-nil protoc (v ∷ vs) = (
  λ e.
      let (found, a, e₁) = bind_ok (check_vector protoc v) _ e in
      let (rest, b, e₂) = bind_ok (check_vectors protoc vs) _ e₁ in
      let (p, q) = (append-nil_iff found rest).0 (ok_injective e₂) in
      (a ∙ ap ok p, (vectors-nil protoc vs).0 (b ∙ ap ok q)),
  λ h. rw (h.0, (vectors-nil protoc vs).1 h.1) refl,
)

same_iff : (a b : Bool) → (same a b ≡ true) ↔ (a ≡ b)
same_iff true true = (λ e. refl, λ e. refl)
same_iff true false = (λ e. cc, λ e. cc)
same_iff false true = (λ e. cc, λ e. cc)
same_iff false false = (λ e. refl, λ e. refl)

agree-true :
    (rules : Rules) (cs : List Case)
    → (cases_agree rules cs ≡ ok true)
      ↔ All (λ c. computed rules c.pack_id_hex c.emoji ≡ ok c.valid) cs
unfolding cases_agree
agree-true rules [] = (λ e. tt, λ h. refl)
agree-true rules (c ∷ cs) = (
  λ e.
      let (says, a, e₁) = bind_ok (computed rules c.pack_id_hex c.emoji) _ e in
      let (rest, b, e₂) = bind_ok (cases_agree rules cs) _ e₁ in
      let (p, q) = and_inv (same says c.valid) rest (ok_injective e₂) in
      (a ∙ ap ok ((same_iff says c.valid).0 p), (agree-true rules cs).0 (b ∙ ap ok q)),
  λ h. rw (h.0, (agree-true rules cs).1 h.1, (same_iff c.valid c.valid).1 refl) refl,
)

empty_iff : (ms : List Mistake) → (is_empty ms ≡ true) ↔ (ms ≡ [])
empty_iff [] = (λ e. refl, λ e. refl)
empty_iff (m ∷ ms) = (λ e. cc, λ e. cc)

-- The script returns 0 exactly if it finds nothing wrong in any vector, and every case states what the
-- rules say of it; an exception in a vector or a case is neither.
passes-checked :
    (protoc : Bytes → Raises (List ℕ)) (rules : Rules) (vectors : List Vector) (cases : List Case)
    → (passes protoc rules vectors cases ≡ ok true) ↔ (
        All (λ v. check_vector protoc v ≡ ok []) vectors
        × All (λ c. computed rules c.pack_id_hex c.emoji ≡ ok c.valid) cases)
unfolding passes
passes-checked protoc rules vectors cases = (
  λ e.
      let (found, a, e₁) = bind_ok (check_vectors protoc vectors) _ e in
      let (agree, b, e₂) = bind_ok (cases_agree rules cases) _ e₁ in
      let (p, q) = and_inv (is_empty found) agree (ok_injective e₂) in
      (
        (vectors-nil protoc vectors).0 (a ∙ ap ok ((empty_iff found).0 p)),
        (agree-true rules cases).0 (b ∙ ap ok q),
      ),
  λ h. rw ((vectors-nil protoc vectors).1 h.0, (agree-true rules cases).1 h.1) refl,
)

-- The sticker that a vector is about.
pub record Meant : Type 0 where
  pub pack : Bytes
  pub index : ℕ
  pub emoji : List ℕ

-- The bytes of the vector are what protoc decodes to the sticker, as it prints one.
pub record Decodes (protoc : Bytes → Raises (List ℕ)) (v : Vector) (s : Meant) : Type 0 where
  pub raw : Bytes
  pub pack_text : List ℕ
  pub emoji_text : List ℕ
  pub read : fromhex v.message_content_hex ≡ ok raw
  pub text : protoc raw ≡ ok (printed pack_text s.index emoji_text)
  pub pack_spelled : Spelled s.pack pack_text
  pub emoji_spelled : Spelled (utf8 s.emoji) emoji_text
  pub scalars : All (λ c. is_scalar c ≡ true) s.emoji

abbrev pub States : Vector → Meant → Type 0
States v s = (v.pack_id_hex ≡ hex s.pack) × (v.index ≡ s.index) × (v.emoji ≡ s.emoji)

-- The lengths that the rules ask for.
abbrev pub Fits : Rules → Bytes → List ℕ → Type 0
Fits rules pack emoji =
    (length pack ≡ rules.pack_id_bytes)
    × (rules.emoji_min_bytes ≤ length (utf8 emoji))
    × (length (utf8 emoji) ≤ rules.emoji_max_bytes)

-- The pack id of the case is hexadecimal, and the case says of it and its emoji whether they fit.
abbrev pub Obeys : Rules → Case → Type 0
Obeys rules c =
    (pack : Bytes) × (fromhex c.pack_id_hex ≡ ok pack)
    × ((c.valid ≡ true) ↔ Fits rules pack c.emoji)

fits_iff :
    (rules : Rules) (n m : ℕ)
    → ((n == rules.pack_id_bytes && (leb rules.emoji_min_bytes m && leb m rules.emoji_max_bytes))
        ≡ true)
      ↔ ((n ≡ rules.pack_id_bytes) × (rules.emoji_min_bytes ≤ m) × (m ≤ rules.emoji_max_bytes))
fits_iff rules n m = (
  λ e.
      let (a, bc) =
        and_inv (n == rules.pack_id_bytes)
          (leb rules.emoji_min_bytes m && leb m rules.emoji_max_bytes) e in
      let (b, c) = and_inv (leb rules.emoji_min_bytes m) (leb m rules.emoji_max_bytes) bc in
      (ground (arith, a), ground (arith, b), ground (arith, c)),
  λ (a, b, c). ground (arith, a, b, c),
)

says_iff {ℓ} :
    {A : Type ℓ} (says valid : Bool) → (says ≡ true) ↔ A → (says ≡ valid) ↔ ((valid ≡ true) ↔ A)
says_iff {A = A} says valid f = (λ e. subst (λ t. (t ≡ true) ↔ A) e f, go says valid f)
  where
    go : (s v : Bool) → (s ≡ true) ↔ A → (v ≡ true) ↔ A → s ≡ v
    go true true f g = refl
    go true false f g = sym (g.1 (f.0 refl))
    go false true f g = f.1 (g.0 refl)
    go false false f g = refl

computed-Obeys :
    (rules : Rules) (c : Case) → (computed rules c.pack_id_hex c.emoji ≡ ok c.valid) ↔ Obeys rules c
unfolding computed
computed-Obeys rules c = (
  λ e.
      let (pack, a, says) = bind_ok (fromhex c.pack_id_hex) _ e in
      let fit = fits_iff rules (length pack) (length (utf8 c.emoji)) in
      (pack, a, (says_iff _ c.valid fit).0 (ok_injective says)),
  λ (pack, a, says).
      let fit = fits_iff rules (length pack) (length (utf8 c.emoji)) in
      rw a (ap ok ((says_iff _ c.valid fit).1 says)),
)

stated_iff :
    (protoc : Bytes → Raises (List ℕ)) (vs : List (Vector × Meant))
    → All (λ p. Decodes protoc p.0 p.1) vs
    → All (λ v. check_vector protoc v ≡ ok []) (map (λ p. p.0) vs) ↔ All (λ p. States p.0 p.1) vs
stated_iff protoc [] h = (λ e. tt, λ e. tt)
stated_iff protoc ((v, s) ∷ vs) (d, h) =
    let one =
      check_vector-nil_iff protoc v d.raw d.pack_text d.emoji_text s.index s.pack s.emoji d.read
        d.text d.pack_spelled d.emoji_spelled d.scalars in
    let more = stated_iff protoc vs h in
    (λ e. (one.0 e.0, more.0 e.1), λ e. (one.1 e.0, more.1 e.1))

-- On vectors each of which protoc decodes to a sticker, printed in its text format, the script returns
-- 0 exactly if each vector states the pack id, the index and the emoji of its sticker, and in each
-- case the pack id is hexadecimal and the case is called valid exactly if the pack id has the length
-- of the rules and the emoji in UTF-8 a length between their bounds.
pub passes_iff :
    (protoc : Bytes → Raises (List ℕ)) (rules : Rules) (vectors : List (Vector × Meant))
    (cases : List Case)
    → All (λ p. Decodes protoc p.0 p.1) vectors
    → (passes protoc rules (map (λ p. p.0) vectors) cases ≡ ok true)
      ↔ (All (λ p. States p.0 p.1) vectors × All (Obeys rules) cases)
passes_iff protoc rules vectors cases h =
    let run = passes-checked protoc rules (map (λ p. p.0) vectors) cases in
    let stated = stated_iff protoc vectors h in
    let obeyed = All-map_iff (computed-Obeys rules) cases in
    (
      λ e. let (a, b) = run.0 e in (stated.0 a, obeyed.0 b),
      λ (a, b). run.1 (stated.1 a, obeyed.1 b),
    )
