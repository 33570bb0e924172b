-- ===== src/Markers/Converged.antt =====
-- Two devices of an account that meet the same markers, each in its own order.
use mathlib.Core.Bool.{Bool-set}
use mathlib.Core.List.{Mem, mem-cons, mem-cons_self, mem-cons_of_mem, not-mem-nil}
use mathlib.Core.Logic.Or
use construct_protos.Prelude.{
  ◌≡◌, ◌↔◌, ◌∙◌, refl, sym, List, [], ◌∷◌, Bool, true, false, Option, none, some, Bool-cases, inl,
  inr, arith,
}
use construct_protos.Proto.{utf8}
use construct_protos.Markers.{Marker, later, want_covers}
use construct_protos.Markers.Order.{later_irreflexive, later_total}
use construct_protos.Markers.Folding.{Event, boundary, is_read, told, is_read-boundary}

-- The same markers of the own account, in any order and any number of times.
abbrev pub SameOwn : List Event → List Event → Type 0
SameOwn es fs = (m : Marker) → Mem (true, m) es ↔ Mem (true, m) fs

-- Boundaries of the same time and the same bytes of the id, or none on either side.
abbrev pub Agree : Option Marker → Option Marker → Type 0
Agree none none = Unit
Agree none (some b) = ⊥
Agree (some a) none = ⊥
Agree (some a) (some b) = (a.0 ≡ b.0) × (utf8 a.1 ≡ utf8 b.1)

told_of_mem :
    (m message : Marker) (es : List Event)
    → want_covers m message ≡ true
    → Mem (true, m) es
    → told es message ≡ true
unfolding told
told_of_mem m message [] h k = absurd (not-mem-nil k)
told_of_mem m message (e ∷ es) h k =
    Or.elim (Bool-set _ _) (mem-cons.0 k) (λ same. rw (← same) (ground (arith, h)))
      (λ more. let rest = told_of_mem m message es h more in ground (arith, rest))

told_inv :
    (message : Marker) (es : List Event)
    → told es message ≡ true
    → (m : Marker) × (want_covers m message ≡ true) × Mem (true, m) es
unfolding told
told_inv message [] h = cc
told_inv message ((false, m) ∷ es) h =
    let (n, covers, at) = told_inv message es h in (n, covers, mem-cons_of_mem (false, m) at)
told_inv message ((true, m) ∷ es) h = elim (Bool-cases (want_covers m message)) [
  | inl k ↦ (m, k, mem-cons_self)
  | inr k ↦
      let (n, covers, at) = told_inv message es (rw k at h) in
      (n, covers, mem-cons_of_mem (true, m) at)
]

equal_tests : (a b : Bool) → (a ≡ true → b ≡ true) → (b ≡ true → a ≡ true) → a ≡ b
equal_tests true b h k = sym (h refl)
equal_tests false true h k = k refl
equal_tests false false h k = refl

told_into :
    (es fs : List Event) (message : Marker)
    → SameOwn es fs
    → told es message ≡ true
    → told fs message ≡ true
told_into es fs message same h =
    let (m, covers, at) = told_inv message es h in told_of_mem m message fs covers ((same m).0 at)

told_same :
    (es fs : List Event) (message : Marker) → SameOwn es fs → told es message ≡ told fs message
told_same es fs message same =
    equal_tests (told es message) (told fs message) (told_into es fs message same)
      (told_into fs es message (λ m. ((same m).1, (same m).0)))

covers_self : (a : Marker) → want_covers a a ≡ true
unfolding want_covers
covers_self a = rw (later_irreflexive a) refl

covers_not_later : (a b : Marker) → want_covers a b ≡ true → later b a ≡ false
unfolding want_covers
covers_not_later a b h = ground (arith, h)

-- Boundaries that cover the same messages are the same, but for the spelling of the id.
is_read-Agree : (a b : Option Marker) → ((m : Marker) → is_read a m ≡ is_read b m) → Agree a b
is_read-Agree none none h = tt
is_read-Agree none (some b) h = let e = h b in let k = covers_self b in cc
is_read-Agree (some a) none h = let e = h a in let k = covers_self a in cc
is_read-Agree (some a) (some b) h =
    let ab = covers_not_later a b (h b ∙ covers_self b) in
    let ba = covers_not_later b a (sym (h a) ∙ covers_self a) in
    elim (later_total a b) [
      | inl t ↦ absurd (ground arith)
      | inr (inl t) ↦ absurd (ground arith)
      | inr (inr same) ↦ same
    ]

-- Devices of an account converge: two that began with the same boundary, and that have met the same
-- markers of the own account, in whatever order, however often, and with whatever markers of others
-- between, hold boundaries that cover the same messages, and that are the same in time and in the
-- bytes of the id, if there is one.
pub boundary_converges :
    (held : Option Marker) (es fs : List Event)
    → SameOwn es fs
    → ((message : Marker) → is_read (boundary held es) message ≡ is_read (boundary held fs) message)
      × Agree (boundary held es) (boundary held fs)
boundary_converges held es fs same =
    let covers = λ (message : Marker).
      let told_same' = told_same es fs message same in
      is_read-boundary held es message
      ∙ rw told_same' refl
      ∙ sym (is_read-boundary held fs message) in
    (covers, is_read-Agree (boundary held es) (boundary held fs) covers)
