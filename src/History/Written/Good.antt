-- ===== src/History/Written/Good.antt =====
-- A row that is made as one with a payload, and what the checker says of it.
use construct_protos.Prelude.{
  ℕ, ◌≡◌, ◌≢◌, ◌∙◌, refl, sym, ap, List, [], Option, some, String, length, Bool, true,
}
use construct_protos.Prelude.Result.{ok, Raises}
use construct_protos.Prelude.Checks.{check}
use construct_protos.Bytes.{Bytes}
use construct_protos.Bytes.Made.{AreBytes}
use construct_protos.Bytes.Hex.{hex, fromhex-hex}
use construct_protos.History.Keys.{Hmac}
use construct_protos.History.Rows.{Row, Kind, Expect, contains_ctm1}
use construct_protos.History.Rows.Kinds.{check_row, check_kind}
use construct_protos.History.Rows.Clean.{mark_of, row_checked}
use construct_protos.History.Rows.Checked.{Passes}
use construct_protos.History.Rows.Made.{vec, bare}

-- The row of a payload, before its other fields are put in.
abbrev pub full : ℕ → Kind → Expect → Bytes → Option (List String) → Option ℕ → Row
full vid kind expect d records phase = record (bare vid kind expect) {
  hex = some (hex d);
  byte_len = some (length d);
  records = records;
  phase = phase;
}

pub vec-full :
    (vid : ℕ) (kind : Kind) (expect : Expect) (d : Bytes) (records : Option (List String))
    (phase : Option ℕ) (extra : Row → Row)
    → AreBytes d
    → vec vid kind expect (some (hex d)) records phase extra
      ≡ ok (extra (full vid kind expect d records phase))
unfolding vec
vec-full vid kind expect d records phase extra h = rw (fromhex-hex d h.all) refl

-- Among rows with one of V27, the checker says at most that there is a CTM1 in the row, and V23 holds
-- the header.
pub record IsGood (hmac : Hmac) (v23 : Bytes) (row : Row) : Type 0 where
  pub marked :
      (has : ℕ → Bool) → has 27 ≡ true → check_row hmac (ok (hex v23)) has row ≡ mark_of row
  pub header : row.vid ≡ 23 → row.hex ≡ some (hex v23)

-- The row of an id is made, and is good.
abbrev pub Makes : Hmac → Bytes → ℕ → Raises Row → Type 0
Makes hmac v23 vid made = (row : Row) × (made ≡ ok row) × (row.vid ≡ vid) × IsGood hmac v23 row

pub Passes-Makes :
    {hmac : Hmac} {v23 : Bytes} {vid : ℕ} {made : Raises Row}
    → vid ≢ 23
    → Passes hmac (ok (hex v23)) vid made
    → Makes hmac v23 vid made
Passes-Makes {hmac} {v23} {vid} {made} other (row, built, id, clean, good) = (
  row,
  built,
  id,
  record {
    marked = λ has h. good has h ∙ ap (λ b. some (ok (check b contains_ctm1))) (sym clean);
    header = λ e. absurd (other (sym id ∙ e));
  },
)

-- A row with a payload is good when the branch of its kind finds nothing wrong.
pub payload-IsGood :
    {hmac : Hmac} {v23 : Bytes} {row : Row} (d : Bytes)
    → AreBytes d
    → row.hex ≡ some (hex d)
    → row.byte_len ≡ some (length d)
    → ((has : ℕ → Bool) → check_kind hmac (ok (hex v23)) has row row.kind ≡ some (ok []))
    → (row.vid ≡ 23 → row.hex ≡ some (hex v23))
    → IsGood hmac v23 row
payload-IsGood {hmac} {v23} {row} d h at long good head = record {
  marked = λ has there. row_checked hmac (ok (hex v23)) has row d h at long (good has);
  header = head;
}
