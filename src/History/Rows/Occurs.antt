-- ===== src/History/Rows/Occurs.antt =====
-- The tests `in` and `==` of check_history_snapshot.py's `main`, as statements.
use construct_protos.Prelude.{
  ℕ, ◌≡◌, ◌↔◌, ◌∙◌, refl, sym, ap, List, [], ◌∷◌, ◌++◌, Bool, true, false, ◌||◌, Option, none, some,
  take, drop, length, take_prefix, take-append-drop, Bool-cases, inl, inr, arith,
}
use construct_protos.Bytes.Struct.{bytes_eq_iff}
use construct_protos.History.Rows.{contains, is_prefix, is_number}

-- The text stands somewhere in the other.
abbrev pub Occurs : List ℕ → List ℕ → Type 0
Occurs t proto = (before : List ℕ) × (after : List ℕ) × (proto ≡ before ++ (t ++ after))

prefix_iff : (xs d : List ℕ) → (is_prefix xs d ≡ true) ↔ ((after : List ℕ) × (d ≡ xs ++ after))
prefix_iff xs d =
    let eq = bytes_eq_iff (take (length xs) d) xs in
    (
      λ e. (
        drop (length xs) d,
        sym (take-append-drop (length xs) d) ∙ ap (λ t. t ++ drop (length xs) d) (eq.0 e),
      ),
      λ (after, e). eq.1 (ap (take (length xs)) e ∙ take_prefix (length xs) xs after refl),
    )

prefix-contains : (xs d : List ℕ) → is_prefix xs d ≡ true → contains xs d ≡ true
unfolding contains
prefix-contains xs [] e = e
prefix-contains xs (b ∷ d) e = rw e refl

contains-Occurs : (xs d : List ℕ) → contains xs d ≡ true → Occurs xs d
unfolding contains
contains-Occurs xs [] e = let (after, h) = (prefix_iff xs []).0 e in ([], after, h)
contains-Occurs xs (b ∷ d) e = elim (Bool-cases (is_prefix xs (b ∷ d))) [
  | inl k ↦ let (after, h) = (prefix_iff xs (b ∷ d)).0 k in ([], after, h)
  | inr k ↦
      let (before, after, h) = contains-Occurs xs d (rw k at e) in
      (b ∷ before, after, ap (λ t. b ∷ t) h)
]

or_true : {a : Bool} (b : Bool) → a ≡ true → (b || a) ≡ true
or_true true e = refl
or_true false e = e

abbrev number_or : ℕ → Option ℕ → ℕ
number_or d none = d
number_or d (some n) = n

contains-append : (xs before after : List ℕ) → contains xs (before ++ (xs ++ after)) ≡ true
unfolding contains
contains-append xs [] after =
    prefix-contains xs (xs ++ after) ((prefix_iff xs (xs ++ after)).1 (after, refl))
contains-append xs (b ∷ before) after =
    or_true (is_prefix xs (b ∷ before ++ (xs ++ after))) (contains-append xs before after)

pub contains_iff : (xs d : List ℕ) → (contains xs d ≡ true) ↔ Occurs xs d
contains_iff xs d =
    (contains-Occurs xs d, λ (before, after, e). rw e (contains-append xs before after))

pub is_number_iff : (o : Option ℕ) (n : ℕ) → (is_number o n ≡ true) ↔ (o ≡ some n)
is_number_iff none n = (λ e. cc, λ e. cc)
is_number_iff (some m) n = (
  λ e. ap some (ground (arith, e)),
  λ e. let same : m ≡ n = ap (number_or m) e in ground (arith, same),
)
