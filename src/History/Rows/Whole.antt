-- ===== src/History/Rows/Whole.antt =====
-- conformance/check_history_snapshot.py, `main` as a whole: the tests of the proto text, of the ids and
-- of the constants, and the loop over the rows. Whether the proto has the enum HistoryBodyKind, which
-- a regular expression finds, is an argument. The texts of `sorted(rows)` keep the order of the rows.
use construct_protos.Prelude.{
  ℕ, zero, suc, ◌+◌, List, [], ◌∷◌, ◌++◌, Bool, true, false, not, ◌&&◌, Option, none, some, leb,
  ◌==◌, if◌then◌else◌, map, concat,
}
use construct_protos.Prelude.Result.{ok, err, Raises, key_error}
use construct_protos.Prelude.Checks.{check, checks}
use construct_protos.Bytes.{codes}
use construct_protos.History.Keys.{Hmac}
use construct_protos.History.Sealed.{cthf_header_len}
use construct_protos.History.Hello.{opening_len, reply_len}
use construct_protos.History.Rows.{Row, Complaint, Outcome, contains, is_number}
use construct_protos.History.Rows.Kinds.{check_row, field_of}

-- doc["$constants"], where a missing one is `none`
pub record Constants : Type 0 where
  pub ctt1_v2_opening_len : Option ℕ
  pub ctt1_v2_reply_len : Option ℕ
  pub cthf_header_len : Option ℕ

-- What `main` finds wrong.
pub data Flaw : Type 0 where
  no_oneof has_body_kind missing_case : Flaw
  missing_id extra_id : ℕ → Flaw
  wrong_opening_len wrong_reply_len wrong_header_len : Flaw
  in_row : ℕ → Complaint → Flaw

-- {row["id"]: row}: a row whose id comes again takes the place of the first one.
unfoldable pub place : Row → List Row → List Row
place r [] = r ∷ []
place r (s ∷ ss) = let rest = place r ss in if r.vid == s.vid then r ∷ ss else s ∷ rest

unfoldable pub rows_from : List Row → List Row → List Row
unfolding place
rows_from acc [] = acc
rows_from acc (r ∷ rs) = rows_from (place r acc) rs

-- rows[...]
unfoldable pub find : ℕ → List Row → Option Row
find n [] = none
find n (r ∷ rs) = let rest = find n rs in if r.vid == n then some r else rest

abbrev pub is_found : Option Row → Bool
is_found none = false
is_found (some r) = true

-- REQUIRED_IDS, from a number on
abbrev pub ids_from : ℕ → ℕ → List ℕ
ids_from n zero = []
ids_from n (suc left) = n ∷ ids_from (n + 1) left

abbrev pub required_ids : List ℕ
required_ids = ids_from 1 28

abbrev pub is_required : ℕ → Bool
is_required n = leb 1 n && leb n 28

abbrev pub proto_tests : List ℕ → Bool → List (Bool × Flaw)
proto_tests proto has_enum =
    (contains (codes "oneof body") proto, no_oneof)
    ∷ (not has_enum, has_body_kind)
    ∷ (
      contains (codes "message_content") proto
          && (contains (codes "media_album") proto && contains (codes "profile_share") proto),
      missing_case,
    )
    ∷ []

abbrev pub constant_tests : Constants → List (Bool × Flaw)
constant_tests c =
    (is_number c.ctt1_v2_opening_len opening_len, wrong_opening_len)
    ∷ (is_number c.ctt1_v2_reply_len reply_len, wrong_reply_len)
    ∷ (is_number c.cthf_header_len cthf_header_len, wrong_header_len)
    ∷ []

abbrev pub missing_ids : List Row → ℕ → List Flaw
missing_ids rows n = check (is_found (find n rows)) (missing_id n)

abbrev pub extra_ids : Row → List Flaw
extra_ids r = check (is_required r.vid) (extra_id r.vid)

-- whether an id is in `rows`
abbrev pub has_row : List Row → ℕ → Bool
has_row rows n = is_found (find n rows)

-- rows["V23"]["hex"]
abbrev pub v23_of : Option Row → Raises (List ℕ)
v23_of none = err key_error
v23_of (some r) = field_of r.hex

abbrev pub named : ℕ → List Complaint → List Flaw
named n cs = map (in_row n) cs

abbrev pub then_rows : ℕ → Outcome → Option (Raises (List Flaw)) → Option (Raises (List Flaw))
then_rows n none rest = none
then_rows n (some (err e)) rest = some (err e)
then_rows n (some (ok cs)) none = none
then_rows n (some (ok cs)) (some (err e)) = some (err e)
then_rows n (some (ok cs)) (some (ok more)) = some (ok (named n cs ++ more))

-- for vid, row in rows.items(): ...
unfoldable pub row_flaws : (Row → Outcome) → List Row → Option (Raises (List Flaw))
row_flaws f [] = some (ok [])
row_flaws f (r ∷ rs) = then_rows r.vid (f r) (row_flaws f rs)

abbrev pub put_front : List Flaw → Option (Raises (List Flaw)) → Option (Raises (List Flaw))
put_front front none = none
put_front front (some (err e)) = some (err e)
put_front front (some (ok rest)) = some (ok (front ++ rest))

abbrev pub front_flaws : List ℕ → Bool → Constants → List Row → List Flaw
front_flaws proto has_enum consts rows =
    checks (proto_tests proto has_enum)
    ++ (concat (map (missing_ids rows) required_ids)
        ++ (concat (map extra_ids rows) ++ checks (constant_tests consts)))

-- `errors` of `main`
unfoldable pub errors : Hmac → List ℕ → Bool → Constants → List Row → Option (Raises (List Flaw))
unfolding row_flaws rows_from find
errors hmac proto has_enum consts vectors =
    let rows = rows_from [] vectors in
    put_front (front_flaws proto has_enum consts rows)
      (row_flaws (check_row hmac (v23_of (find 23 rows)) (has_row rows)) rows)
