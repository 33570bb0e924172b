-- ===== src/History/Phase/Legal.antt =====
-- What the checker's test of a phase means.
use construct_protos.Prelude.{
  ℕ, ◌≡◌, ◌≢◌, ◌↔◌, ◌⊎◌, inl, inr, refl, ap, List, [], ◌∷◌, ◌++◌, Bool, true, false, not, Option,
  none, some, ◌==◌, All, arith, Bool-cases,
}
use native.Mathlib.Decide.{ℕ_discrete}
use construct_protos.History.Phase.{
  is_transcript, is_media, Violation, without_end, any, phase_rule, reaction_rule, rest_ok, body_ok,
  phase_ok, or_else,
}

-- Some number of a list is the one asked for.
abbrev pub Holds : ℕ → List ℕ → Type 0
Holds n [] = ⊥
Holds n (m ∷ ms) = (m ≡ n) ⊎ Holds n ms

-- Each Reaction has a Message somewhere before it.
abbrev pub ReactionsFollow : List ℕ → Type 0
ReactionsFollow rest = (before after : List ℕ) → rest ≡ before ++ (5 ∷ after) → Holds 4 before

-- Phase 1 carries no media, phase 2 nothing else, phase 3 anything; there is no other phase.
abbrev pub Allows : ℕ → List ℕ → Type 0
Allows phase rest =
    ((phase ≡ 1) × All (λ t. t ≢ 8) rest) ⊎ ((phase ≡ 2) × All (λ t. t ≡ 8) rest) ⊎ (phase ≡ 3)

-- The Manifest comes first, the phase allows the other records, and no Reaction comes too early.
-- The End record plays no part.
abbrev pub Legal : ℕ → List ℕ → Type 0
Legal phase types =
    (rest : List ℕ) × (without_end types ≡ 1 ∷ rest) × Allows phase rest × ReactionsFollow rest

any-false : (test : ℕ → Bool) (ts : List ℕ) → any test ts ≡ false → All (λ t. test t ≡ false) ts
unfolding any
any-false test [] e = tt
any-false test (t ∷ ts) e = (ground arith, any-false test ts (ground arith))

any-none : (test : ℕ → Bool) (ts : List ℕ) → All (λ t. test t ≡ false) ts → any test ts ≡ false
unfolding any
any-none test [] h = refl
any-none test (t ∷ ts) h = rw (h.0, any-none test ts h.1)

All-map : {P Q : ℕ → Type 0} (f : (t : ℕ) → P t → Q t) (ts : List ℕ) → All P ts → All Q ts
All-map f [] h = tt
All-map f (t ∷ ts) h = (f t h.0, All-map f ts h.1)

no_media : (t : ℕ) → (is_media t ≡ false) ↔ (t ≢ 8)
no_media t = ground arith

only_media : (t : ℕ) → (not (is_media t) ≡ false) ↔ (t ≡ 8)
only_media t = ground arith

no_transcript : (t : ℕ) → t ≡ 8 → is_transcript t ≡ false
no_transcript t e = rw e

phase_one : (rest : List ℕ) → (phase_rule 1 rest ≡ none) ↔ All (λ t. t ≢ 8) rest
unfolding phase_rule
phase_one rest = (
  λ e. All-map (λ t. (no_media t).0) rest (any-false is_media rest (ground arith)),
  λ h. rw (any-none is_media rest (All-map (λ t. (no_media t).1) rest h)),
)

phase_two : (rest : List ℕ) → (phase_rule 2 rest ≡ none) ↔ All (λ t. t ≡ 8) rest
unfolding phase_rule
phase_two rest = (
  λ e. All-map (λ t. (only_media t).0) rest (any-false (λ t. not (is_media t)) rest (ground arith)),
  λ h. rw (
    any-none is_transcript rest (All-map no_transcript rest h),
    any-none (λ t. not (is_media t)) rest (All-map (λ t. (only_media t).1) rest h),
  ),
)

other_phase :
    (phase : ℕ) (rest : List ℕ) → phase ≢ 1 → phase ≢ 2 → phase_rule phase rest ≡ none → phase ≡ 3
unfolding phase_rule
other_phase phase rest h k e = ground arith

phase_rule_iff : (phase : ℕ) (rest : List ℕ) → (phase_rule phase rest ≡ none) ↔ Allows phase rest
phase_rule_iff phase rest = (forward, backward)
  where
    forward : phase_rule phase rest ≡ none → Allows phase rest
    forward e = elim (ℕ_discrete phase 1) [
      | yes one ↦ inl (one, (phase_one rest).0 (rw one at e))
      | no h ↦ elim (ℕ_discrete phase 2) [
        | yes two ↦ inr (inl (two, (phase_two rest).0 (rw two at e)))
        | no k ↦ inr (inr (other_phase phase rest h k e))
      ]
    ]

    backward : Allows phase rest → phase_rule phase rest ≡ none
    backward (inl (one, h)) = rw one ((phase_one rest).1 h)
    backward (inr (inl (two, h))) = rw two ((phase_two rest).1 h)
    backward (inr (inr three)) = rw three (unfold phase_rule in refl)

-- With a Message seen, or one in what was passed, no Reaction is too early.
reaction_rule_seen : (ts : List ℕ) → reaction_rule true ts ≡ none
unfolding reaction_rule
reaction_rule_seen [] = refl
reaction_rule_seen (t ∷ ts) = ground (arith, reaction_rule_seen ts)

reaction_rule_follow : (ts : List ℕ) → reaction_rule false ts ≡ none → ReactionsFollow ts
unfolding reaction_rule
reaction_rule_follow [] e [] after p = cc
reaction_rule_follow [] e (b ∷ before) after p = cc
reaction_rule_follow (t ∷ ts) e [] after p = ground arith
reaction_rule_follow (t ∷ ts) e (b ∷ before) after p = elim (Bool-cases (t == 4)) [
  | inl message ↦ inl (ground arith)
  | inr other ↦ inr (reaction_rule_follow ts (ground arith) before after (cc))
]

reaction_rule-none : (ts : List ℕ) → ReactionsFollow ts → reaction_rule false ts ≡ none
unfolding reaction_rule
reaction_rule-none [] h = refl
reaction_rule-none (t ∷ ts) h = elim (Bool-cases (t == 4)) [
  | inl message ↦ rw message (ground (arith, reaction_rule_seen ts))
  | inr other ↦ elim (Bool-cases (t == 5)) [
    | inl early ↦ absurd (h [] ts (ap (λ n. n ∷ ts) (ground arith)))
    | inr neither ↦ rw (other, neither) (reaction_rule-none ts (tail_follows other))
  ]
]
  where
    tail_follows : (t == 4) ≡ false → ReactionsFollow ts
    tail_follows other before after p = elim (h (t ∷ before) after (ap (λ l. t ∷ l) p)) [
      | inl message ↦ absurd (ground arith)
      | inr found ↦ found
    ]

or_else_iff : (a b : Option Violation) → (or_else a b ≡ none) ↔ ((a ≡ none) × (b ≡ none))
or_else_iff none b = (λ e. (refl, e), λ h. h.1)
or_else_iff (some v) b = (λ e. cc, λ h. cc (h.0))

rest_ok_iff :
    (phase : ℕ) (rest : List ℕ)
    → (rest_ok phase rest ≡ none) ↔ (Allows phase rest × ReactionsFollow rest)
rest_ok_iff phase rest = (
  λ e.
      let (rule, order) =
        (or_else_iff (phase_rule phase rest) (reaction_rule false rest)).0 (unfold rest_ok in e) in
      ((phase_rule_iff phase rest).0 rule, reaction_rule_follow rest order),
  λ h.
      unfold rest_ok in
      (or_else_iff (phase_rule phase rest) (reaction_rule false rest)).1
        ((phase_rule_iff phase rest).1 h.0, reaction_rule-none rest h.1),
)

body_ok_iff :
    (phase : ℕ) (body : List ℕ)
    → (body_ok phase body ≡ none)
      ↔ ((rest : List ℕ) × (body ≡ 1 ∷ rest) × Allows phase rest × ReactionsFollow rest)
unfolding body_ok
body_ok_iff phase [] = (λ e. cc, λ h. cc (h.1))
body_ok_iff phase (t ∷ rest) = elim (ℕ_discrete t 1) [
  | yes first ↦ (
    λ e.
        let (allowed, order) = (rest_ok_iff phase rest).0 (ground arith) in
        (rest, ap (λ n. n ∷ rest) first, allowed, order),
    λ (other, e, allowed, order).
        let same : other ≡ rest = cc in
        ground (arith, (rest_ok_iff phase rest).1 (rw same at allowed, rw same at order)),
  )
  | no h ↦ (λ e. ground arith, λ (other, e, allowed, order). absurd (h (cc)))
]

-- The checker has no complaint of a stream's record types in a phase exactly if they are legal in
-- that phase.
pub phase_ok_iff : (phase : ℕ) (types : List ℕ) → (phase_ok phase types ≡ none) ↔ Legal phase types
unfolding phase_ok
phase_ok_iff phase types = body_ok_iff phase (without_end types)
