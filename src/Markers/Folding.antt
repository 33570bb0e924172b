-- ===== src/Markers/Folding.antt =====
-- The boundary of one chat behind a sequence of markers, and the set of messages that it stands for.
use construct_protos.Prelude.{
  ◌≡◌, ◌∙◌, refl, sym, List, [], ◌∷◌, ◌++◌, Bool, true, false, ◌&&◌, ◌||◌, Option, none, some,
  Bool-cases, inl, inr, arith,
}
use construct_protos.Markers.{Marker, later, want_apply, want_covers}
use construct_protos.Markers.Order.{after, later_transitive, later_total, same_covers}

-- A marker that comes, with whether it is from a device of the own account.
abbrev pub Event : Type 0
Event = Bool × Marker

-- The boundary that a device holds behind some markers, the first one first.
unfoldable pub boundary : Option Marker → List Event → Option Marker
boundary held [] = held
boundary held (e ∷ es) = boundary (after e.0 held e.1) es

abbrev pub is_read : Option Marker → Marker → Bool
is_read none message = false
is_read (some held) message = want_covers held message

-- What a reader has been told: some marker of the own account covers the message.
unfoldable pub told : List Event → Marker → Bool
told [] message = false
told (e ∷ es) message = e.0 && want_covers e.1 message || told es message

-- A later marker covers what an earlier one covers.
covers_mono :
    (a b message : Marker)
    → later b a ≡ true
    → want_covers a message ≡ true
    → want_covers b message ≡ true
unfolding want_covers
covers_mono a b message h k = elim (Bool-cases (later message b)) [
  | inl e ↦ absurd (ground (arith, later_transitive message b a e h))
  | inr e ↦ rw e refl
]

-- One that is not later covers no more.
covers_anti :
    (a b message : Marker)
    → later b a ≡ false
    → want_covers b message ≡ true
    → want_covers a message ≡ true
unfolding want_covers
covers_anti a b message h k = elim (Bool-cases (later message a)) [
  | inr e ↦ rw e refl
  | inl e ↦ elim (later_total a b) [
    | inl t ↦ absurd (ground (arith, later_transitive message a b e t))
    | inr (inl t) ↦ absurd (ground arith)
    | inr (inr (t, u)) ↦ same_covers a b message t u ∙ k
  ]
]

-- One step: a message is read behind a marker if the marker is of the own account and covers it, or
-- if it was read before.
is_read-after :
    (own : Bool) (held : Option Marker) (marker message : Marker)
    → is_read (after own held marker) message
      ≡ (own && want_covers marker message || is_read held message)
unfolding want_apply
is_read-after false none marker message = refl
is_read-after false (some held) marker message = refl
is_read-after true none marker message = ground arith
is_read-after true (some held) marker message = elim (Bool-cases (later marker held)) [
  | inl e ↦ let grow = covers_mono held marker message e in rw e (ground (arith, grow))
  | inr e ↦ let less = covers_anti held marker message e in rw e (ground (arith, less))
]

-- After any sequence of markers from anyone, the held boundary covers exactly the messages that it
-- covered at the start or that some marker of the own account in the sequence covers.
pub is_read-boundary :
    (held : Option Marker) (events : List Event) (message : Marker)
    → is_read (boundary held events) message ≡ (told events message || is_read held message)
unfolding boundary told
is_read-boundary held [] message = refl
is_read-boundary held ((own, marker) ∷ es) message =
    let step = is_read-after own held marker message in
    let rest = is_read-boundary (after own held marker) es message in rest ∙ ground (arith, step)

told-append :
    (es fs : List Event) (message : Marker)
    → told (es ++ fs) message ≡ (told es message || told fs message)
unfolding told
told-append [] fs message = refl
told-append (e ∷ es) fs message = let rest = told-append es fs message in ground (arith, rest)

-- Two groups of markers may come in either order: the boundaries at the end cover the same messages.
pub boundary-append_comm :
    (held : Option Marker) (es fs : List Event) (message : Marker)
    → is_read (boundary held (es ++ fs)) message ≡ is_read (boundary held (fs ++ es)) message
boundary-append_comm held es fs message =
    let one = is_read-boundary held (es ++ fs) message in
    let other = is_read-boundary held (fs ++ es) message in
    let p = told-append es fs message in
    let q = told-append fs es message in one ∙ ground (arith, p, q) ∙ sym other
