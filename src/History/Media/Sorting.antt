-- ===== src/History/Media/Sorting.antt =====
-- The test of the checker, a comparison with the sorted list and with the size of the set, says
-- that the numbers strictly increase.
use construct_protos.Prelude.{
  ℕ, suc, ◌≤◌, ◌<◌, ◌≡◌, ◌↔◌, ◌∙◌, refl, sym, ap, List, [], ◌∷◌, true, false, arith, leb, ◌==◌,
  length, All, Bool-cases, inl, inr, leb→le, le→leb, ==_iff, ==_refl, and_inv, subst,
}
use construct_protos.Bytes.{bytes_eq}
use construct_protos.Bytes.Struct.{bytes_eq_refl, bytes_eq→eq}
use construct_protos.History.Media.{insert, sorted, is_in, distinct_count, in_order}

-- Each number is below all that follow it.
abbrev pub Increasing : List ℕ → Type 0
Increasing [] = Unit
Increasing (n ∷ ns) = All (λ m. n < m) ns × Increasing ns

insert_least : (n : ℕ) (ns : List ℕ) → All (λ m. n < m) ns → insert n ns ≡ n ∷ ns
unfolding insert
insert_least n [] h = refl
insert_least n (m ∷ ms) h = rw (le→leb n m (omega (arith, h.0)))

sorted-Increasing : (ns : List ℕ) → Increasing ns → sorted ns ≡ ns
unfolding sorted
sorted-Increasing [] h = refl
sorted-Increasing (n ∷ ns) h = ap (insert n) (sorted-Increasing ns h.1) ∙ insert_least n ns h.0

not_in : (n : ℕ) (ns : List ℕ) → All (λ m. n < m) ns → is_in n ns ≡ false
unfolding is_in
not_in n [] h = refl
not_in n (m ∷ ms) h = ground (arith, not_in n ms)

distinct_Increasing : (ns : List ℕ) → Increasing ns → distinct_count ns ≡ length ns
unfolding distinct_count
distinct_Increasing [] h = refl
distinct_Increasing (n ∷ ns) h = rw (not_in n ns h.0) (ap suc (distinct_Increasing ns h.1))

-- Insertion keeps a list sorted, and a sorted list has its least number first.
abbrev Sorted : List ℕ → Type 0
Sorted [] = Unit
Sorted (n ∷ ns) = All (λ m. n ≤ m) ns × Sorted ns

All-le : (a b : ℕ) (ns : List ℕ) → a ≤ b → All (λ m. b ≤ m) ns → All (λ m. a ≤ m) ns
All-le a b [] h k = tt
All-le a b (n ∷ ns) h k = (omega (arith, k.0), All-le a b ns h k.1)

insert-All : (a n : ℕ) (ns : List ℕ) → a ≤ n → All (λ m. a ≤ m) ns → All (λ m. a ≤ m) (insert n ns)
unfolding insert
insert-All a n [] h k = (h, tt)
insert-All a n (m ∷ ms) h k = elim (Bool-cases (leb n m)) [
  | inl e ↦ rw e (h, k)
  | inr e ↦ rw e (k.0, insert-All a n ms h k.1)
]

insert-Sorted : (n : ℕ) (ns : List ℕ) → Sorted ns → Sorted (insert n ns)
unfolding insert
insert-Sorted n [] s = (tt, tt)
insert-Sorted n (m ∷ ms) s = elim (Bool-cases (leb n m)) [
  | inl e ↦ rw e ((leb→le n m e, All-le n m ms (leb→le n m e) s.0), s)
  | inr e ↦ rw e (insert-All m n ms (ground arith) s.0, insert-Sorted n ms s.1)
]

sorted-Sorted : (ns : List ℕ) → Sorted (sorted ns)
unfolding sorted
sorted-Sorted [] = tt
sorted-Sorted (n ∷ ns) = insert-Sorted n (sorted ns) (sorted-Sorted ns)

distinct_le : (ns : List ℕ) → distinct_count ns ≤ length ns
unfolding distinct_count
distinct_le [] = omega arith
distinct_le (n ∷ ns) = ground (arith, distinct_le ns)

apart : (n : ℕ) (ns : List ℕ) → is_in n ns ≡ false → All (λ m. n ≤ m) ns → All (λ m. n < m) ns
unfolding is_in
apart n [] e h = tt
apart n (m ∷ ms) e h = elim (Bool-cases (n == m)) [
  | inl same ↦ cc (rw same at e)
  | inr other ↦ (ground (arith, h.0), apart n ms (rw other at e) h.1)
]

Sorted-distinct : (ns : List ℕ) → Sorted ns → distinct_count ns ≡ length ns → Increasing ns
unfolding distinct_count
Sorted-distinct [] s e = tt
Sorted-distinct (n ∷ ns) s e = elim (Bool-cases (is_in n ns)) [
  | inl again ↦
      let short : distinct_count ns ≡ suc (length ns) = rw again at e in
      absurd (omega (arith, distinct_le ns))
  | inr new ↦
      let rest : suc (distinct_count ns) ≡ suc (length ns) = rw new at e in
      (apart n ns new s.0, Sorted-distinct ns s.1 (omega arith))
]

-- The test passes exactly on the lists in which each number is below all that follow it.
pub in_order_iff : (ns : List ℕ) → (in_order ns ≡ true) ↔ Increasing ns
unfolding in_order
in_order_iff ns = (forward, backward)
  where
    forward : in_order ns ≡ true → Increasing ns
    forward e =
        let (same, count) = and_inv (bytes_eq ns (sorted ns)) (distinct_count ns == length ns) e in
        Sorted-distinct ns (subst Sorted (sym (bytes_eq→eq ns (sorted ns) same)) (sorted-Sorted ns))
          ((==_iff (distinct_count ns) (length ns)).0 count)

    backward : Increasing ns → in_order ns ≡ true
    backward h =
        rw (sorted-Increasing ns h, bytes_eq_refl ns, distinct_Increasing ns h)
          (==_refl (length ns))
