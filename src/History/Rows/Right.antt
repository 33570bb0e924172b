-- ===== src/History/Rows/Right.antt =====
-- What a row of its kind must be, next to the body of the loop of check_history_snapshot.py's `main`.
use construct_protos.Prelude.{
  ℕ, ◌≡◌, ◌≢◌, ◌↔◌, ◌⊎◌, inl, inr, ◌∙◌, refl, sym, ap, subst, List, [], ◌∷◌, ◌++◌, Bool, true, not,
  Option, none, some, All, take, slice, length, Bool-cases, if◌then◌else◌, ◌==◌,
}
use construct_protos.Prelude.Result.{ok, err, Raises, ok_injective, ◌>>=◌}
use construct_protos.Prelude.Checks.{append-nil_iff, not-true_iff}
use construct_protos.Bytes.{Bytes, codes}
use construct_protos.Bytes.Struct.{bytes_eq_iff}
use construct_protos.Bytes.Hex.{fromhex}
use construct_protos.History.Keys.{Hmac}
use construct_protos.History.Rows.{
  Row, Kind, cth1_stream, cth1_header_only, ctt1_v2_opening, ctt1_v2_reply, cthf_header,
  channel_key, cthf_file, preimage, unknown_kind, Complaint, Outcome, malformed, verify_fail,
  verify_ok_with_tag, kem_key_id_mismatch, chunk_open_failed, contains, only_v15,
}
use construct_protos.History.Rows.Kinds.{
  data_of, check_opening, check_reply, check_cthf, check_file, check_whole_file, check_kind,
  check_front, check_hex, check_header_only, check_preimage, check_channel_key, before_kind,
  check_row,
}
use construct_protos.History.Rows.Content.{
  IsOverCap, IsPreimage, IsChannelKey, IsWholeFile, ok_iff, check_header_only-IsOverCap,
  check_preimage-IsPreimage, check_channel_key-IsChannelKey, check_whole_file-IsWholeFile,
}
use construct_protos.History.Rows.Occurs.{Occurs, contains_iff, is_number_iff}
use construct_protos.History.Rows.Tested.{
  both_nil, check_iff, num_iff, when_iff, is_malformed_iff, is_verify_fail_iff, is_ok_with_tag_iff,
  is_mismatch_iff, is_open_failed_iff, and_iff, all_zeros_iff, false-ne-true,
}

-- The payload of a row is hexadecimal, has no CTM1 in it and the length that the row states.
abbrev pub IsPayloadOf : Row → Option (List ℕ) → Type 0
IsPayloadOf row none = Unit
IsPayloadOf row (some []) = Unit
IsPayloadOf row (some (c ∷ text)) =
    (d : Bytes) × (fromhex (c ∷ text) ≡ ok d)
    × ¬ Occurs (codes "CTM1") d
    × (row.byte_len ≡ some (length d))

abbrev pub IsOpening : Row → Bytes → Type 0
IsOpening row d =
    (length d ≡ 7055)
    × ((take 5 d ≡ codes "CTT1" ++ (2 ∷ []))
        × (((row.vid ≢ 22) ⊎ (All (λ b. b ≡ 0) (slice 2114 3682 d) × (row.expect ≡ malformed)))
            × (((row.vid ≢ 21) ⊎ (row.expect ≡ verify_fail))
                × ((row.vid ≢ 19) ⊎ (row.expect ≡ verify_ok_with_tag)))))

abbrev pub IsHeader : Row → Bytes → Type 0
IsHeader row d =
    (length d ≡ 7062)
    × ((take 5 d ≡ codes "CTHF" ++ (1 ∷ []))
        × (((row.vid ≢ 24) ⊎ (row.expect ≡ kem_key_id_mismatch))
            × ((row.vid ≢ 23)
                ⊎ ((row.has_chunk0_combined ≡ true) × (row.has_file_channel_key ≡ true)))))

abbrev pub Reads : Row → (Bytes → Type 0) → Type 0
Reads row P = (d : Bytes) × (data_of row.hex ≡ ok d) × P d

-- A derived file names a row and the swap, and a whole one has the header of V23 and its chunks.
abbrev pub IsFile : Row → Raises (List ℕ) → (ℕ → Bool) → Option (ℕ × Bool) → Type 0
IsFile row v23 has (some (origin, swaps)) =
    ((has origin ≡ true) × (swaps ≡ true)) × (row.expect ≡ chunk_open_failed)
IsFile row v23 has none = Reads row (IsWholeFile row v23)

-- What a row of the kind must be; for a stream it is what the code's readers and rules say of it.
abbrev pub IsOfKind : Hmac → Raises (List ℕ) → (ℕ → Bool) → Row → Kind → Type 0
IsOfKind hmac v23 has row ctt1_v2_opening = Reads row (IsOpening row)
IsOfKind hmac v23 has row ctt1_v2_reply = Reads row (λ d. length d ≡ 5421)
IsOfKind hmac v23 has row cthf_header = Reads row (IsHeader row)
IsOfKind hmac v23 has row cthf_file = IsFile row v23 has row.derived
IsOfKind hmac v23 has row cth1_stream = check_kind hmac v23 has row cth1_stream ≡ some (ok [])
IsOfKind hmac v23 has row cth1_header_only = (row.vid ≡ 15) × Reads row (IsOverCap row)
IsOfKind hmac v23 has row channel_key = IsChannelKey hmac row
IsOfKind hmac v23 has row preimage = IsPreimage row
IsOfKind hmac v23 has row unknown_kind = ⊥

abbrev pub IsRight : Hmac → Raises (List ℕ) → (ℕ → Bool) → Row → Type 0
IsRight hmac v23 has row = IsPayloadOf row row.hex × IsOfKind hmac v23 has row row.kind

check_opening-IsOpening : (row : Row) (d : Bytes) → (check_opening row d ≡ []) ↔ IsOpening row d
unfolding check_opening
check_opening-IsOpening row d = both_nil (check_iff _ _ (num_iff (length d) 7055)) (
    both_nil (check_iff _ _ (bytes_eq_iff (take 5 d) (codes "CTT1" ++ (2 ∷ [])))) (
      both_nil
        (when_iff row.vid 22 (
          both_nil (check_iff _ _ (all_zeros_iff (slice 2114 3682 d)))
            (check_iff _ _ (is_malformed_iff row.expect))))
        (both_nil (when_iff row.vid 21 (check_iff _ _ (is_verify_fail_iff row.expect)))
          (when_iff row.vid 19 (check_iff _ _ (is_ok_with_tag_iff row.expect))))))

check_cthf-IsHeader : (row : Row) (d : Bytes) → (check_cthf row d ≡ []) ↔ IsHeader row d
unfolding check_cthf
check_cthf-IsHeader row d = both_nil (check_iff _ _ (num_iff (length d) 7062)) (
    both_nil (check_iff _ _ (bytes_eq_iff (take 5 d) (codes "CTHF" ++ (1 ∷ [])))) (
      both_nil (when_iff row.vid 24 (check_iff _ _ (is_mismatch_iff row.expect))) (
        when_iff row.vid 23
          (check_iff _ _ (and_iff row.has_chunk0_combined row.has_file_channel_key)))))

reply_iff : (d : Bytes) → (check_reply d ≡ []) ↔ (length d ≡ 5421)
unfolding check_reply
reply_iff d = check_iff _ _ (num_iff (length d) 5421)

abbrev outcome_or : Raises (List Complaint) → Outcome → Raises (List Complaint)
outcome_or r none = r
outcome_or r (some s) = s

-- A branch that reads the payload.
reads_iff :
    {P : Bytes → Type 0} (f : Bytes → Raises (List Complaint)) (r : Raises Bytes)
    → ((d : Bytes) → (f d ≡ ok []) ↔ P d)
    → (◌≡◌ {A = Outcome} (some (r >>= f)) (some (ok []))) ↔ ((d : Bytes) × (r ≡ ok d) × P d)
reads_iff f (err e) g = (λ h. cc, λ (d, e', p). cc)
reads_iff {P} f (ok d) g = (
  λ h. (d, refl, (g d).0 (ap (outcome_or (f d)) h)),
  λ (d', e, p). ap some ((g d).1 (subst P (sym (ok_injective e)) p)),
)

-- An outcome that is a call's is clean when the call is.
call_iff {ℓ} :
    {A : Type ℓ} (r : Raises (List Complaint))
    → (r ≡ ok []) ↔ A
    → (◌≡◌ {A = Outcome} (some r) (some (ok []))) ↔ A
call_iff r f = (λ e. f.0 (ap (outcome_or r) e), λ a. ap some (f.1 a))

only_15_iff :
    (row : Row)
    → ((if row.vid == 15
          then some (data_of row.hex >>= check_header_only row)
          else some (ok (only_v15 ∷ [])))
        ≡ some (ok []))
      ↔ ((row.vid ≡ 15) × Reads row (IsOverCap row))
only_15_iff row = elim (Bool-cases (row.vid == 15)) [
  | inl k ↦
      let inner =
        reads_iff (check_header_only row) (data_of row.hex) (check_header_only-IsOverCap row) in
      rw k (λ e. ((num_iff row.vid 15).0 k, inner.0 e), λ h. inner.1 h.1)
  | inr k ↦ rw k (λ e. cc, λ h. absurd (false-ne-true (sym k ∙ (num_iff row.vid 15).1 h.0)))
]

check_file-IsFile :
    (row : Row) (v23 : Raises (List ℕ)) (has : ℕ → Bool) (o : Option (ℕ × Bool))
    → (◌≡◌ {A = Outcome} (some (check_file row v23 has o)) (some (ok []))) ↔ IsFile row v23 has o
unfolding check_file
check_file-IsFile row v23 has none =
    reads_iff (check_whole_file row v23) (data_of row.hex) (check_whole_file-IsWholeFile row v23)
check_file-IsFile row v23 has (some (origin, swaps)) =
    let found =
      both_nil (check_iff _ _ (and_iff (has origin) swaps))
        (check_iff _ _ (is_open_failed_iff row.expect)) in
    (
      λ e. found.0 (ok_injective (ap (outcome_or (ok [])) e)),
      λ h. ap (λ t. some (ok t)) (found.1 h),
    )

kind_iff :
    (hmac : Hmac) (v23 : Raises (List ℕ)) (has : ℕ → Bool) (row : Row) (kind : Kind)
    → (check_kind hmac v23 has row kind ≡ some (ok [])) ↔ IsOfKind hmac v23 has row kind
unfolding check_kind
kind_iff hmac v23 has row ctt1_v2_opening =
    reads_iff (λ d. ok (check_opening row d)) (data_of row.hex)
      (λ d. ok_iff (check_opening row d) (check_opening-IsOpening row d))
kind_iff hmac v23 has row ctt1_v2_reply =
    reads_iff (λ d. ok (check_reply d)) (data_of row.hex)
      (λ d. ok_iff (check_reply d) (reply_iff d))
kind_iff hmac v23 has row cthf_header =
    reads_iff (λ d. ok (check_cthf row d)) (data_of row.hex)
      (λ d. ok_iff (check_cthf row d) (check_cthf-IsHeader row d))
kind_iff hmac v23 has row cthf_file = check_file-IsFile row v23 has row.derived
kind_iff hmac v23 has row cth1_stream = (λ e. e, λ e. e)
kind_iff hmac v23 has row cth1_header_only = only_15_iff row
kind_iff hmac v23 has row channel_key =
    call_iff (check_channel_key hmac row) (check_channel_key-IsChannelKey hmac row)
kind_iff hmac v23 has row preimage =
    call_iff (ok (check_preimage row)) (ok_iff (check_preimage row) (check_preimage-IsPreimage row))
kind_iff hmac v23 has row unknown_kind = (λ e. cc, λ h. absurd h)

abbrev complaints_or : List Complaint → Outcome → List Complaint
complaints_or cs none = cs
complaints_or cs (some (err e)) = cs
complaints_or cs (some (ok ds)) = ds

before_iff :
    {A : Type 0} (front : List Complaint) (o : Outcome)
    → (front ≡ []) ↔ A
    → (before_kind front o ≡ some (ok [])) ↔ (A × (o ≡ some (ok [])))
before_iff front none f = (λ e. cc, λ (a, e). cc)
before_iff front (some (err x)) f = (λ e. cc, λ (a, e). cc)
before_iff front (some (ok rest)) f = (
  λ e.
      let (p, q) = (append-nil_iff front rest).0 (ap (complaints_or []) e) in
      (f.0 p, ap (λ t. some (ok t)) q),
  λ (a, e). ap (λ t. some (ok t)) ((append-nil_iff front rest).1 (f.1 a, ap (complaints_or []) e)),
)

unmarked_iff : (d : Bytes) → (not (contains (codes "CTM1") d) ≡ true) ↔ ¬ Occurs (codes "CTM1") d
unmarked_iff d =
    let found = contains_iff (codes "CTM1") d in
    let unless = not-true_iff (contains (codes "CTM1") d) in
    (
      λ e h. false-ne-true (sym (unless.0 e) ∙ found.1 h),
      λ h. elim (Bool-cases (contains (codes "CTM1") d)) [
        | inl k ↦ absurd (h (found.0 k))
        | inr k ↦ unless.1 k
      ],
    )

hex_iff :
    (row : Row) (r : Raises Bytes) (o : Outcome)
    → (check_hex row r o ≡ some (ok [])) ↔ (
        ((d : Bytes) × (r ≡ ok d) × (¬ Occurs (codes "CTM1") d) × (row.byte_len ≡ some (length d)))
        × (o ≡ some (ok [])))
hex_iff row (err x) o = (λ e. cc, λ ((d, e, m, n), k). cc)
hex_iff row (ok d) o =
    let whole = before_iff _ o (
      both_nil (check_iff _ _ (unmarked_iff d))
        (check_iff _ _ (is_number_iff row.byte_len (length d)))) in
    (
      λ e. let ((a, b), c) = whole.0 e in ((d, refl, a, b), c),
      λ ((d', e, a, b), c).
          let same : d' ≡ d = sym (ok_injective e) in
          whole.1 (
            (
              subst (λ t. ¬ Occurs (codes "CTM1") t) same a,
              subst (λ t. row.byte_len ≡ some (length t)) same b,
            ),
            c,
          ),
    )

front_iff :
    (row : Row) (text : Option (List ℕ)) (o : Outcome)
    → (check_front row text o ≡ some (ok [])) ↔ (IsPayloadOf row text × (o ≡ some (ok [])))
front_iff row none o = (λ e. (tt, e), λ h. h.1)
front_iff row (some []) o = (λ e. (tt, e), λ h. h.1)
front_iff row (some (c ∷ text)) o = hex_iff row (fromhex (c ∷ text)) o

-- The body of the loop finds nothing wrong in the row exactly if the row is right.
pub check_row_iff :
    (hmac : Hmac) (v23 : Raises (List ℕ)) (has : ℕ → Bool) (row : Row)
    → (check_row hmac v23 has row ≡ some (ok [])) ↔ IsRight hmac v23 has row
unfolding check_row
check_row_iff hmac v23 has row =
    let front = front_iff row row.hex (check_kind hmac v23 has row row.kind) in
    let kind = kind_iff hmac v23 has row row.kind in
    (λ e. let (a, b) = front.0 e in (a, kind.0 b), λ (a, b). front.1 (a, kind.1 b))
