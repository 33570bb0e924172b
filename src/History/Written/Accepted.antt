-- ===== src/History/Written/Accepted.antt =====
-- The checker's `main` on rows that are good, one for each id.
use construct_protos.Prelude.{
  ℕ, zero, suc, ◌≡◌, ◌↔◌, ◌∙◌, refl, sym, ap, subst, List, [], ◌∷◌, ◌++◌, Bool, true, false, none,
  some, All, take, drop, slice, All-take, All-drop, All-slice, All-append,
}
use mathlib.Core.List.{map-append}
use construct_protos.Prelude.Result.{ok, err}
use construct_protos.Prelude.Checks.{check, check-nil}
use construct_protos.Bytes.{Bytes}
use construct_protos.Bytes.Hex.{hex}
use construct_protos.History.Keys.{Hmac}
use construct_protos.History.Rows.{Row, Outcome, Complaint, contains_ctm1}
use construct_protos.History.Rows.Kinds.{check_row, field_of}
use construct_protos.History.Rows.Clean.{is_clean}
use construct_protos.History.Rows.Whole.{
  Flaw, named, row_flaws, front_flaws, errors, find, is_found, required_ids, proto_tests, v23_of,
  has_row,
}
use construct_protos.History.Rows.Silent.{front_flaws-nil, errors-nil}
use construct_protos.History.Rows.Dict.{
  ids, rows_from-required, required-found, required-known, find-All,
}
use construct_protos.History.Written.{in_order, written_constants}
use construct_protos.History.Written.Good.{IsGood}

map-take : (n : ℕ) (rows : List Row) → ids (take n rows) ≡ take n (ids rows)
map-take zero rows = refl
map-take (suc n) [] = refl
map-take (suc n) (r ∷ rows) = ap (λ t. r.vid ∷ t) (map-take n rows)

map-drop : (n : ℕ) (rows : List Row) → ids (drop n rows) ≡ drop n (ids rows)
map-drop zero rows = refl
map-drop (suc n) [] = refl
map-drop (suc n) (r ∷ rows) = map-drop n rows

-- The order of the list puts the ids in theirs.
pub ids-in_order :
    (streams keyed : List Row) (header channel file swapped : Row)
    → ids streams ≡ 1 ∷ 2 ∷ 3 ∷ 4 ∷ 5 ∷ 6 ∷ 7 ∷ 8 ∷ 9 ∷ 10 ∷ 11 ∷ 12 ∷ 13 ∷ 14 ∷ 16 ∷ 25 ∷ []
    → ids keyed ≡ 17 ∷ 18 ∷ 19 ∷ 20 ∷ 21 ∷ 22 ∷ 23 ∷ 24 ∷ []
    → header.vid ≡ 15
    → channel.vid ≡ 26
    → file.vid ≡ 27
    → swapped.vid ≡ 28
    → ids (in_order streams header keyed channel file swapped) ≡ required_ids
unfolding in_order
ids-in_order streams keyed header channel file swapped s k h c f w =
    let vid = λ (r : Row). r.vid in
    map-append vid (take 14 streams) _
    ∙ rw
        (
          map-append vid (slice 14 15 streams)
              (keyed ++ (drop 15 streams ++ (channel ∷ file ∷ swapped ∷ []))),
          map-append vid keyed (drop 15 streams ++ (channel ∷ file ∷ swapped ∷ [])),
          map-append vid (drop 15 streams) (channel ∷ file ∷ swapped ∷ []),
          map-take 14 streams,
          map-take 1 (drop 14 streams),
          map-drop 14 streams,
          map-drop 15 streams,
          s,
          k,
          h,
          c,
          f,
          w,
        )
        refl

pub in_order-All :
    (P : Row → Type 0) (streams keyed : List Row) (header channel file swapped : Row)
    → All P streams
    → All P keyed
    → P header
    → P channel
    → P file
    → P swapped
    → All P (in_order streams header keyed channel file swapped)
unfolding in_order
in_order-All P streams keyed header channel file swapped s k h c f w =
    All-append P (take 14 streams) _ (All-take P 14 streams s) (
      h,
      All-append P (slice 14 15 streams) _ (All-slice P 14 15 streams s) (
          All-append P keyed _ k
            (All-append P (drop 15 streams) _ (All-drop P 15 streams s) (c, (f, (w, tt))))),
    )

abbrev complaints : Outcome → List Complaint
complaints none = []
complaints (some (err e)) = []
complaints (some (ok cs)) = cs

-- A good row has no complaint exactly if there is no CTM1 in it.
row_passes :
    (hmac : Hmac) (v23 : Bytes) (has : ℕ → Bool) (r : Row)
    → has 27 ≡ true
    → IsGood hmac v23 r
    → (check_row hmac (ok (hex v23)) has r ≡ some (ok [])) ↔ (is_clean r.hex ≡ true)
row_passes hmac v23 has r there h =
    let passes = check-nil (is_clean r.hex) contains_ctm1 in
    (
      λ e. passes.0 (ap complaints (sym (h.marked has there) ∙ e)),
      λ e. (h.marked has there) ∙ ap (λ t. some (ok t)) (passes.1 e),
    )

rows_pass :
    (hmac : Hmac) (v23 : Bytes) (has : ℕ → Bool) (rows : List Row)
    → has 27 ≡ true
    → All (IsGood hmac v23) rows
    → All (λ r. check_row hmac (ok (hex v23)) has r ≡ some (ok [])) rows
      ↔ All (λ r. is_clean r.hex ≡ true) rows
rows_pass hmac v23 has [] there h = (λ e. tt, λ e. tt)
rows_pass hmac v23 has (r ∷ rows) there h =
    let one = row_passes hmac v23 has r there h.0 in
    let more = rows_pass hmac v23 has rows there h.1 in
    (λ e. (one.0 e.0, more.0 e.1), λ e. (one.1 e.0, more.1 e.1))

-- V23 is there, with the header.
find-header :
    (hmac : Hmac) (v23 : Bytes) (rows : List Row)
    → ids rows ≡ required_ids
    → All (IsGood hmac v23) rows
    → v23_of (find 23 rows) ≡ ok (hex v23)
find-header hmac v23 rows e h =
    let (r, at, id, good) =
      find-All {P = IsGood hmac v23} 23 rows h
        (twenty_third (λ n. is_found (find n rows) ≡ true) (required-found rows e)) in
    ap v23_of at ∙ ap field_of (good.header id)
  where
    twenty_third : (P : ℕ → Type 0) → All P required_ids → P 23
    twenty_third P h = h.1.1.1.1.1.1.1.1.1.1.1.1.1.1.1.1.1.1.1.1.1.1.0

-- V27 is there.
found-file : (rows : List Row) → ids rows ≡ required_ids → has_row rows 27 ≡ true
found-file rows e = twenty_seventh (λ n. is_found (find n rows) ≡ true) (required-found rows e)
  where
    twenty_seventh : (P : ℕ → Type 0) → All P required_ids → P 27
    twenty_seventh P h = h.1.1.1.1.1.1.1.1.1.1.1.1.1.1.1.1.1.1.1.1.1.1.1.1.1.1.0

-- What `main` adds of rows with nothing wrong but a CTM1 in some of them.
abbrev pub marks : List Row → List Flaw
marks [] = []
marks (r ∷ rows) = named r.vid (check (is_clean r.hex) contains_ctm1) ++ marks rows

row_flaws-marks :
    (hmac : Hmac) (v23 : Bytes) (has : ℕ → Bool) (rows : List Row)
    → has 27 ≡ true
    → All (IsGood hmac v23) rows
    → row_flaws (check_row hmac (ok (hex v23)) has) rows ≡ some (ok (marks rows))
unfolding row_flaws
row_flaws-marks hmac v23 has [] there h = refl
row_flaws-marks hmac v23 has (r ∷ rows) there h =
    rw (h.0.marked has there, row_flaws-marks hmac v23 has rows there h.1) refl

-- Nothing is wrong in front of the loop.
written_front :
    (proto : List ℕ) (rows : List Row)
    → All (λ c. c.0 ≡ true) (proto_tests proto false)
    → ids rows ≡ required_ids
    → front_flaws proto false written_constants rows ≡ []
written_front proto rows texts e =
    (front_flaws-nil proto false written_constants rows).1
      (texts, required-found rows e, required-known rows e, (refl, (refl, (refl, tt))))

-- Good rows, one for each id: there is no error but those for a CTM1.
pub errors-marks :
    (hmac : Hmac) (proto : List ℕ) (v23 : Bytes) (rows : List Row)
    → All (λ c. c.0 ≡ true) (proto_tests proto false)
    → ids rows ≡ required_ids
    → All (IsGood hmac v23) rows
    → errors hmac proto false written_constants rows ≡ some (ok (marks rows))
unfolding errors
errors-marks hmac proto v23 rows texts e h =
    let front = written_front proto rows texts e in
    rw
      (
        rows_from-required rows e,
        front,
        find-header hmac v23 rows e h,
        row_flaws-marks hmac v23 (has_row rows) rows (found-file rows e) h,
      )
      refl

pub good_rows :
    (hmac : Hmac) (proto : List ℕ) (v23 : Bytes) (rows : List Row)
    → All (λ c. c.0 ≡ true) (proto_tests proto false)
    → ids rows ≡ required_ids
    → All (IsGood hmac v23) rows
    → (errors hmac proto false written_constants rows ≡ some (ok []))
      ↔ All (λ r. is_clean r.hex ≡ true) rows
good_rows hmac proto v23 rows texts e h =
    let whole = errors-nil hmac proto false written_constants rows in
    let front : front_flaws proto false written_constants rows ≡ [] =
      written_front proto rows texts e in
    let same = rows_from-required rows e in
    let header = find-header hmac v23 rows e h in
    let pass = rows_pass hmac v23 (has_row rows) rows (found-file rows e) h in
    let passing = λ (rs : List Row).
      All (λ r. check_row hmac (v23_of (find 23 rs)) (has_row rs) r ≡ some (ok [])) rs in
    (
      λ clean.
          let c = subst passing same (whole.0 clean).1 in
          pass.0 (
            subst (λ t. All (λ r. check_row hmac t (has_row rows) r ≡ some (ok [])) rows) header c),
      λ clean. whole.1 (
        subst (λ rs. front_flaws proto false written_constants rs ≡ []) (sym same) front,
        subst passing (sym same) (
            subst (λ t. All (λ r. check_row hmac t (has_row rows) r ≡ some (ok [])) rows)
              (sym header) (pass.1 clean)),
      ),
    )
