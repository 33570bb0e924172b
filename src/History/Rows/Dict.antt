-- ===== src/History/Rows/Dict.antt =====
-- The dict of rows by id: what `find` finds in it, and when rows with ids in a row are all of it.
use construct_protos.Prelude.{
  ℕ, zero, suc, ◌+◌, ◌≤◌, ◌<◌, ◌≡◌, ◌∙◌, refl, sym, ap, subst, List, [], ◌∷◌, ◌++◌, Bool, true,
  false, some, ◌==◌, if◌then◌else◌, All, arith, map, Bool-cases, inl, inr, append_assoc,
  append_nil_right,
}
use construct_protos.History.Rows.{Row}
use construct_protos.History.Rows.Whole.{
  place, rows_from, find, is_found, ids_from, required_ids, is_required,
}

abbrev pub ids : List Row → List ℕ
ids rows = map (λ r. r.vid) rows

-- A row whose id is above all others goes to the end.
place_last :
    (r : Row) (acc : List Row) → All (λ s. s.vid < r.vid) acc → place r acc ≡ acc ++ (r ∷ [])
unfolding place
place_last r [] h = refl
place_last r (s ∷ acc) h = let rest = place_last r acc h.1 in ground (arith, rest, h.0)

all_below :
    (n : ℕ) (r : Row) (acc : List Row)
    → r.vid ≡ n
    → All (λ s. s.vid < n) acc
    → All (λ s. s.vid < n + 1) (acc ++ (r ∷ []))
all_below n r [] e h = (omega (arith, e), tt)
all_below n r (s ∷ acc) e h = (omega (arith, h.0), all_below n r acc e h.1)

rows_from-ids :
    (n left : ℕ) (acc rs : List Row)
    → All (λ s. s.vid < n) acc
    → ids rs ≡ ids_from n left
    → rows_from acc rs ≡ acc ++ rs
unfolding rows_from
rows_from-ids n left acc [] h e = sym (append_nil_right acc)
rows_from-ids n zero acc (r ∷ rs) h e = cc
rows_from-ids n (suc left) acc (r ∷ rs) h e =
    let first : r.vid ≡ n = cc in
    let rest : ids rs ≡ ids_from (n + 1) left = cc in
    ap (λ t. rows_from t rs)
      (place_last r acc (subst (λ k. All (λ s. s.vid < k) acc) (sym first) h))
    ∙ rows_from-ids (n + 1) left (acc ++ (r ∷ [])) rs (all_below n r acc first h) rest
    ∙ append_assoc acc (r ∷ []) rs

-- Rows with the required ids in their order are the dict of themselves.
pub rows_from-required : (rows : List Row) → ids rows ≡ required_ids → rows_from [] rows ≡ rows
rows_from-required rows e = rows_from-ids 1 28 [] rows tt e

-- Some row has the id.
abbrev pub among : ℕ → List ℕ → Bool
among n [] = false
among n (i ∷ is') = if i == n then true else among n is'

is_found-among : (n : ℕ) (rows : List Row) → is_found (find n rows) ≡ among n (ids rows)
unfolding find
is_found-among n [] = refl
is_found-among n (r ∷ rows) = elim (Bool-cases (r.vid == n)) [
  | inl k ↦ rw k refl
  | inr k ↦ rw k (is_found-among n rows)
]

pub required-found :
    (rows : List Row)
    → ids rows ≡ required_ids
    → All (λ n. is_found (find n rows) ≡ true) required_ids
required-found rows e = go required_ids (ap (λ is'. map (λ n. among n is') required_ids) e)
  where
    go :
        (ns : List ℕ)
        → map (λ n. among n (ids rows)) ns ≡ map (λ n. true) ns
        → All (λ n. is_found (find n rows) ≡ true) ns
    go [] h = tt
    go (n ∷ ns) h = (is_found-among n rows ∙ cc, go ns (cc))

known_from :
    (n left : ℕ) (rows : List Row)
    → 1 ≤ n
    → n + left ≤ 29
    → ids rows ≡ ids_from n left
    → All (λ r. is_required r.vid ≡ true) rows
known_from n left [] h k e = tt
known_from n zero (r ∷ rows) h k e = cc
known_from n (suc left) (r ∷ rows) h k e =
    let first : r.vid ≡ n = cc in
    let rest : ids rows ≡ ids_from (n + 1) left = cc in
    (ground (arith, first), known_from (n + 1) left rows (omega arith) (omega arith) rest)

pub required-known :
    (rows : List Row) → ids rows ≡ required_ids → All (λ r. is_required r.vid ≡ true) rows
required-known rows e = known_from 1 28 rows (omega arith) (omega arith) e

-- A row that is found is one of the rows, and has the id.
pub find-All :
    {P : Row → Type 0} (n : ℕ) (rows : List Row)
    → All P rows
    → is_found (find n rows) ≡ true
    → (r : Row) × (find n rows ≡ some r) × (r.vid ≡ n) × P r
unfolding find
find-All n [] h e = cc
find-All {P} n (r ∷ rows) h e = elim (Bool-cases (r.vid == n)) [
  | inl k ↦ (r, rw k refl, ground (arith, k), h.0)
  | inr k ↦
      let (s, at, id, good) = find-All {P = P} n rows h.1 (rw k at e) in (s, rw k at, id, good)
]
