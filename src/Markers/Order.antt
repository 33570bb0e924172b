-- ===== src/Markers/Order.antt =====
-- The order of read markers and the boundaries that it moves, in conformance/check_read_markers.py.
use construct_protos.Prelude.{
  ◌≡◌, ◌⊎◌, inl, inr, refl, [], ◌∷◌, Bool, true, false, Option, none, some, arith, Bool-cases,
}
use construct_protos.Bytes.{Bytes}
use construct_protos.Proto.{utf8}
use construct_protos.Markers.{
  bytes_gt, Marker, later, Verdict, drop, apply, ignore, want_apply, want_covers,
}

gt_total : (xs ys : Bytes) → (bytes_gt xs ys ≡ true) ⊎ (bytes_gt ys xs ≡ true) ⊎ (xs ≡ ys)
unfolding bytes_gt
gt_total [] [] = inr (inr refl)
gt_total [] (y ∷ ys) = inr (inl refl)
gt_total (x ∷ xs) [] = inl refl
gt_total (x ∷ xs) (y ∷ ys) = elim (gt_total xs ys) [
  | inl e ↦ ground arith
  | inr (inl e) ↦ ground arith
  | inr (inr e) ↦ ground arith
]

gt_irreflexive : (xs : Bytes) → bytes_gt xs xs ≡ false
unfolding bytes_gt
gt_irreflexive [] = refl
gt_irreflexive (x ∷ xs) = ground (arith, gt_irreflexive xs)

gt_transitive :
    (xs ys zs : Bytes) → bytes_gt xs ys ≡ true → bytes_gt ys zs ≡ true → bytes_gt xs zs ≡ true
unfolding bytes_gt
gt_transitive [] ys zs h k = ground arith
gt_transitive (x ∷ xs) [] zs h k = ground arith
gt_transitive (x ∷ xs) (y ∷ ys) [] h k = refl
gt_transitive (x ∷ xs) (y ∷ ys) (z ∷ zs) h k = elim (Bool-cases (bytes_gt xs ys)) [
  | inl e ↦ elim (Bool-cases (bytes_gt ys zs)) [
    | inl e' ↦ let rest = gt_transitive xs ys zs e e' in ground arith
    | inr e' ↦ ground arith
  ]
  | inr e ↦ ground arith
]

pub later_transitive : (a b c : Marker) → later a b ≡ true → later b c ≡ true → later a c ≡ true
unfolding later
later_transitive (s, i) (t, j) (u, k) h g = elim (Bool-cases (bytes_gt (utf8 i) (utf8 j))) [
  | inl e ↦ elim (Bool-cases (bytes_gt (utf8 j) (utf8 k))) [
    | inl e' ↦ let rest = gt_transitive (utf8 i) (utf8 j) (utf8 k) e e' in ground arith
    | inr e' ↦ ground arith
  ]
  | inr e ↦ ground arith
]

pub later_irreflexive : (a : Marker) → later a a ≡ false
unfolding later
later_irreflexive (s, i) = ground (arith, gt_irreflexive (utf8 i))

-- Of two markers one is later than the other, or they have the same time and the same bytes of the id.
pub later_total :
    (a b : Marker) → (later a b ≡ true) ⊎ (later b a ≡ true) ⊎ (a.0 ≡ b.0) × (utf8 a.1 ≡ utf8 b.1)
unfolding later
later_total (s, i) (t, j) = elim (gt_total (utf8 i) (utf8 j)) [
  | inl e ↦ ground arith
  | inr (inl e) ↦ ground arith
  | inr (inr e) ↦ ground arith
]

-- The boundary that is held behind a marker, as the verdict has it.
abbrev held_after : Verdict → Option Marker → Marker → Option Marker
held_after apply held marker = some marker
held_after drop held marker = held
held_after ignore held marker = held

abbrev pub after : Bool → Option Marker → Marker → Option Marker
after own held marker = held_after (want_apply own held marker) held marker

-- A message that a boundary covers is covered by the boundary that is held behind any marker, from
-- whomever it came: no marker makes a read message unread.
pub want_covers-after :
    (own : Bool) (held marker message : Marker)
    → want_covers held message ≡ true
    → (b : Marker) × (after own (some held) marker ≡ some b) × (want_covers b message ≡ true)
unfolding want_apply want_covers
want_covers-after false held marker message h = (held, refl, h)
want_covers-after true held marker message h = elim (Bool-cases (later marker held)) [
  | inr e ↦ (held, rw e refl, h)
  | inl e ↦ elim (Bool-cases (later message marker)) [
    | inr k ↦ (marker, rw e refl, rw k refl)
    | inl k ↦ absurd (ground (arith, later_transitive message marker held k e))
  ]
]

-- Behind a marker of the own account a boundary is held, and it covers the message of the marker.
pub want_covers-own :
    (held : Option Marker) (marker : Marker)
    → (b : Marker) × (after true held marker ≡ some b) × (want_covers b marker ≡ true)
unfolding want_apply want_covers
want_covers-own none marker = (marker, refl, rw (later_irreflexive marker) refl)
want_covers-own (some held) marker = elim (Bool-cases (later marker held)) [
  | inl e ↦ (marker, rw e refl, rw (later_irreflexive marker) refl)
  | inr e ↦ (held, rw e refl, rw e refl)
]

-- A boundary covers what one of the same time and the same bytes of the id covers.
pub same_covers :
    (a b message : Marker)
    → a.0 ≡ b.0
    → utf8 a.1 ≡ utf8 b.1
    → want_covers a message ≡ want_covers b message
unfolding want_covers later
same_covers a b message e e' = rw (e, e') refl

-- Two markers of the own account, one held and the other one coming: whichever comes first, the
-- boundaries that are held at the end cover the same messages.
pub after_commute :
    (a b message : Marker)
    → (c : Marker) × (c' : Marker) × (after true (some a) b ≡ some c)
      × (after true (some b) a ≡ some c')
      × (want_covers c message ≡ want_covers c' message)
unfolding want_apply
after_commute a b message = elim (Bool-cases (later a b)) [
  | inl e ↦ elim (Bool-cases (later b a)) [
    | inl k ↦ absurd (ground (arith, later_transitive a b a e k, later_irreflexive a))
    | inr k ↦ (a, a, rw k refl, rw e refl, refl)
  ]
  | inr e ↦ elim (Bool-cases (later b a)) [
    | inl k ↦ (b, b, rw k refl, rw e refl, refl)
    | inr k ↦ elim (later_total a b) [
      | inl t ↦ absurd (ground arith)
      | inr (inl t) ↦ absurd (ground arith)
      | inr (inr (t, u)) ↦ (a, b, rw k refl, rw e refl, same_covers a b message t u)
    ]
  ]
]
