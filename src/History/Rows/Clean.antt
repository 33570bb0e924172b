-- ===== src/History/Rows/Clean.antt =====
-- A row with a payload: what the checker says of it, when the branch of its kind finds nothing wrong.
use construct_protos.Prelude.{
  ℕ, ◌≡◌, ◌∙◌, refl, sym, ap, List, [], ◌∷◌, Bool, true, false, not, Option, none, some, length,
  ==_refl, append_nil_right,
}
use construct_protos.Prelude.Result.{ok, err, Raises}
use construct_protos.Prelude.Checks.{check}
use construct_protos.Bytes.{Bytes, codes}
use construct_protos.Bytes.Made.{AreBytes}
use construct_protos.Bytes.Hex.{hex, fromhex, fromhex-hex}
use construct_protos.History.Keys.{Hmac}
use construct_protos.History.Rows.{Row, Outcome, contains, contains_ctm1}
use construct_protos.History.Rows.Kinds.{check_row, check_kind, check_front}

abbrev unmarked : Raises Bytes → Bool
unmarked (err e) = false
unmarked (ok d) = not (contains (codes "CTM1") d)

-- No payload, or one that has no CTM1 in it.
unfoldable pub is_clean : Option (List ℕ) → Bool
is_clean none = true
is_clean (some text) = unmarked (fromhex text)

-- What the checker still says of a row whose branch finds nothing wrong.
abbrev pub mark_of : Row → Outcome
mark_of row = some (ok (check (is_clean row.hex) contains_ctm1))

front_lem :
    (row : Row) (d : Bytes)
    → AreBytes d
    → row.byte_len ≡ some (length d)
    → check_front row (some (hex d)) (some (ok []))
      ≡ some (ok (check (is_clean (some (hex d))) contains_ctm1))
unfolding is_clean hex
front_lem row [] h e = unfold fromhex contains in refl
front_lem row (b ∷ bs) h e =
    rw (fromhex-hex (b ∷ bs) h.all, e, ==_refl (length (b ∷ bs)))
      (ap (λ t. some (ok t)) (append_nil_right _ ∙ append_nil_right _))

pub row_checked :
    (hmac : Hmac) (v23 : Raises (List ℕ)) (has : ℕ → Bool) (row : Row) (d : Bytes)
    → AreBytes d
    → row.hex ≡ some (hex d)
    → row.byte_len ≡ some (length d)
    → check_kind hmac v23 has row row.kind ≡ some (ok [])
    → check_row hmac v23 has row ≡ mark_of row
unfolding check_row
row_checked hmac v23 has row d h at long good =
    ap (λ t. check_front row t (check_kind hmac v23 has row row.kind)) at
    ∙ ap (check_front row (some (hex d))) good
    ∙ front_lem row d h long
    ∙ ap (λ t. some (ok (check (is_clean t) contains_ctm1))) (sym at)
