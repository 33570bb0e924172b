-- ===== src/History/Phase.antt =====
-- conformance/check_history_snapshot.py, `names_of` and `phase_ok`: which record types may stand in a
-- stream of which phase, and in which order.
pub mod Legal
use construct_protos.Prelude.{
  ℕ, zero, suc, List, [], ◌∷◌, Bool, true, false, not, ◌&&◌, ◌||◌, Option, none, some, ◌==◌,
  if◌then◌else◌, map, String,
}

-- RT.get(t, "unknown")
unfoldable pub name_of : ℕ → String
name_of t =
    if t == 0
    then "end"
    else if t == 1
    then "manifest"
    else if t == 2
    then "contact"
    else if t == 3
    then "chat"
    else if t == 4
    then "message"
    else if t == 5
    then "reaction"
    else if t == 6
    then "peer"
    else if t == 7
    then "call"
    else if t == 8
    then "media"
    else "unknown"

unfoldable pub names_of : List ℕ → List String
unfolding name_of
names_of types = map name_of types

-- TRANSCRIPT_TYPES
abbrev pub is_transcript : ℕ → Bool
is_transcript t = t == 2 || t == 3 || t == 4 || t == 5 || t == 6 || t == 7

-- MEDIA_TYPES
abbrev pub is_media : ℕ → Bool
is_media t = t == 8

-- The texts that `phase_ok` returns.
pub data Violation : Type 0 where
  manifest_not_first media_in_phase_1 transcript_in_phase_2 non_media_in_phase_2 phase_0 : Violation
  reaction_before_message : Violation
  unknown_phase : ℕ → Violation

unfoldable pub without_end : List ℕ → List ℕ
without_end [] = []
without_end (t ∷ ts) = if t == 0 then without_end ts else t ∷ without_end ts

-- any(test(t) for t in types)
unfoldable pub any : (ℕ → Bool) → List ℕ → Bool
any test [] = false
any test (t ∷ ts) = test t || any test ts

-- The chain of tests on the phase; `none` goes on behind it.
unfoldable pub phase_rule : ℕ → List ℕ → Option Violation
phase_rule phase rest =
    if phase == 1
    then (if any is_media rest then some media_in_phase_1 else none)
    else if phase == 2
    then (if any is_transcript rest
        then some transcript_in_phase_2
        else if any (λ t. not (is_media t)) rest
        then some non_media_in_phase_2
        else none)
    else if phase == 3
    then none
    else if phase == 0
    then some phase_0
    else some (unknown_phase phase)

-- for t in rest: ...
unfoldable pub reaction_rule : Bool → List ℕ → Option Violation
reaction_rule seen_message [] = none
reaction_rule seen_message (t ∷ ts) =
    let seen = (if t == 4 then true else seen_message) in
    if t == 5 && not seen then some reaction_before_message else reaction_rule seen ts

-- The first complaint, if there is one.
abbrev pub or_else : Option Violation → Option Violation → Option Violation
or_else (some v) next = some v
or_else none next = next

unfoldable pub rest_ok : ℕ → List ℕ → Option Violation
rest_ok phase rest = or_else (phase_rule phase rest) (reaction_rule false rest)

-- `not body or body[0] != 0x01`
unfoldable pub body_ok : ℕ → List ℕ → Option Violation
body_ok phase [] = some manifest_not_first
body_ok phase (t ∷ rest) = if t == 1 then rest_ok phase rest else some manifest_not_first

unfoldable pub phase_ok : ℕ → List ℕ → Option Violation
phase_ok phase types = body_ok phase (without_end types)
