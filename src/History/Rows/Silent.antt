-- ===== src/History/Rows/Silent.antt =====
-- When the parts of `errors` of check_history_snapshot.py's `main` stay empty.
use construct_protos.Prelude.{
  ℕ, ◌≡◌, ◌↔◌, refl, ap, List, [], ◌∷◌, Bool, true, Option, none, some, All, map, concat,
}
use construct_protos.Prelude.Result.{ok, err, Raises}
use construct_protos.Prelude.Checks.{
  check-nil, checks, checks-nil, append-nil_iff, concat-map-nil, All-map_iff, cons-ne-nil,
}
use construct_protos.History.Keys.{Hmac}
use construct_protos.History.Rows.{Row, Complaint, Outcome}
use construct_protos.History.Rows.Kinds.{check_row}
use construct_protos.History.Rows.Whole.{
  Constants, Flaw, extra_id, missing_id, rows_from, find, is_found, required_ids, is_required,
  proto_tests, constant_tests, missing_ids, extra_ids, has_row, v23_of, named, then_rows, row_flaws,
  put_front, front_flaws, errors,
}

abbrev Flaws : Type 0
Flaws = Option (Raises (List Flaw))

abbrev flaws_or : List Flaw → Flaws → List Flaw
flaws_or d none = d
flaws_or d (some (err e)) = d
flaws_or d (some (ok fs)) = fs

put_front-nil :
    (front : List Flaw) (o : Flaws)
    → (put_front front o ≡ some (ok [])) ↔ ((front ≡ []) × (o ≡ some (ok [])))
put_front-nil front none = (λ e. cc, λ h. cc)
put_front-nil front (some (err x)) = (λ e. cc, λ h. cc)
put_front-nil front (some (ok rest)) = (
  λ e.
      let (p, q) = (append-nil_iff front rest).0 (ap (flaws_or []) e) in
      (p, ap (λ t. some (ok t)) q),
  λ h. ap (λ t. some (ok t)) ((append-nil_iff front rest).1 (h.0, ap (flaws_or []) h.1)),
)

named-nil : (n : ℕ) (cs : List Complaint) → (named n cs ≡ []) ↔ (cs ≡ [])
named-nil n [] = (λ e. refl, λ e. refl)
named-nil n (c ∷ cs) = (λ e. absurd (cons-ne-nil _ _ e), λ e. absurd (cons-ne-nil _ _ e))

abbrev complaints_of : Outcome → List Complaint → List Complaint
complaints_of none d = d
complaints_of (some (err e)) d = d
complaints_of (some (ok cs)) d = cs

then_rows-nil :
    (n : ℕ) (o : Outcome) (more : Flaws)
    → (then_rows n o more ≡ some (ok [])) ↔ ((o ≡ some (ok [])) × (more ≡ some (ok [])))
then_rows-nil n none more = (λ e. cc, λ h. cc)
then_rows-nil n (some (err x)) more = (λ e. cc, λ h. cc)
then_rows-nil n (some (ok cs)) none = (λ e. cc, λ h. cc)
then_rows-nil n (some (ok cs)) (some (err x)) = (λ e. cc, λ h. cc)
then_rows-nil n (some (ok cs)) (some (ok rest)) = (
  λ e.
      let (p, q) = (append-nil_iff (named n cs) rest).0 (ap (flaws_or []) e) in
      (ap (λ t. some (ok t)) ((named-nil n cs).0 p), ap (λ t. some (ok t)) q),
  λ h.
      let p : cs ≡ [] = ap (λ o. complaints_of o []) h.0 in
      ap (λ t. some (ok t))
        ((append-nil_iff (named n cs) rest).1 ((named-nil n cs).1 p, ap (flaws_or []) h.1)),
)

row_flaws-nil :
    (f : Row → Outcome) (rs : List Row)
    → (row_flaws f rs ≡ some (ok [])) ↔ All (λ r. f r ≡ some (ok [])) rs
unfolding row_flaws
row_flaws-nil f [] = (λ e. tt, λ h. refl)
row_flaws-nil f (r ∷ rs) = (
  λ e.
      let (p, q) = (then_rows-nil r.vid (f r) (row_flaws f rs)).0 e in
      (p, (row_flaws-nil f rs).0 q),
  λ h. (then_rows-nil r.vid (f r) (row_flaws f rs)).1 (h.0, (row_flaws-nil f rs).1 h.1),
)

pub front_flaws-nil :
    (proto : List ℕ) (has_enum : Bool) (consts : Constants) (rows : List Row)
    → (front_flaws proto has_enum consts rows ≡ []) ↔ (
        All (λ c. c.0 ≡ true) (proto_tests proto has_enum)
        × All (λ n. is_found (find n rows) ≡ true) required_ids
        × All (λ r. is_required r.vid ≡ true) rows
        × All (λ c. c.0 ≡ true) (constant_tests consts))
front_flaws-nil proto has_enum consts rows =
    let missing = λ (n : ℕ). check-nil (is_found (find n rows)) (missing_id n) in
    let extra = λ (r : Row). check-nil (is_required r.vid) (extra_id r.vid) in
    let ids = All-map_iff missing required_ids in
    let others = All-map_iff extra rows in
    let no_id = concat-map-nil (missing_ids rows) required_ids in
    let no_other = concat-map-nil extra_ids rows in
    (
      λ e.
          let (p, e₁) = (append-nil_iff (checks (proto_tests proto has_enum)) _).0 e in
          let (m, e₂) = (append-nil_iff (concat (map (missing_ids rows) required_ids)) _).0 e₁ in
          let (x, c) = (append-nil_iff (concat (map extra_ids rows)) _).0 e₂ in
          (
            (checks-nil (proto_tests proto has_enum)).0 p,
            ids.0 (no_id.0 m),
            others.0 (no_other.0 x),
            (checks-nil (constant_tests consts)).0 c,
          ),
      λ (p, m, x, c). (append-nil_iff _ _).1 (
        (checks-nil (proto_tests proto has_enum)).1 p,
        (append-nil_iff _ _).1 (
          no_id.1 (ids.1 m),
          (append-nil_iff _ _).1
              (no_other.1 (others.1 x), (checks-nil (constant_tests consts)).1 c),
        ),
      ),
    )

-- The tests of the code, one after the other.
pub errors-nil :
    (hmac : Hmac) (proto : List ℕ) (has_enum : Bool) (consts : Constants) (vectors : List Row)
    → (errors hmac proto has_enum consts vectors ≡ some (ok [])) ↔ (
        (front_flaws proto has_enum consts (rows_from [] vectors) ≡ [])
        × All
            (λ r.
              check_row hmac
                (v23_of (find 23 (rows_from [] vectors)))
                (has_row (rows_from [] vectors))
                r
              ≡ some (ok []))
            (rows_from [] vectors))
unfolding errors
errors-nil hmac proto has_enum consts vectors =
    let rows = rows_from [] vectors in
    let f = check_row hmac (v23_of (find 23 rows)) (has_row rows) in
    let whole = put_front-nil (front_flaws proto has_enum consts rows) (row_flaws f rows) in
    let each = row_flaws-nil f rows in
    (λ e. let (p, q) = whole.0 e in (p, each.0 q), λ h. whole.1 (h.0, each.1 h.1))
