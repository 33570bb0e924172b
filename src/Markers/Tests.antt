-- ===== src/Markers/Tests.antt =====
-- The theorems on read markers at concrete inputs.
use mathlib.Core.List.{Mem, Mem-prop, mem-cons, mem-cons_self, mem-cons_of_mem, not-mem-nil}
use mathlib.Core.Logic.Or
use construct_protos.Prelude.{◌≡◌, ◌↔◌, refl, true, false, some, none, List, [], ◌∷◌, ◌||◌, All}
use construct_protos.Bytes.{codes}
use construct_protos.Proto.{utf8}
use construct_protos.Markers.{Marker, later, bytes_gt, want_apply, want_covers}
use construct_protos.Prelude.Result.{ok, Raises}
use construct_protos.Bytes.{Bytes}
use construct_protos.Markers.Cases.{Text, Vectors, build, built_apply, built_covers, errors}
use construct_protos.Markers.Accepted.{StatesRule, StatesCover, errors-nil_iff_rules}
use construct_protos.Markers.Converged.{Agree, boundary_converges}
use construct_protos.Markers.Folding.{Event, boundary, is_read, told, is_read-boundary}
use construct_protos.Markers.Order.{later_transitive}

abbrev early : Marker
early = (100, codes "a3")

abbrev late : Marker
late = (100, codes "b4")

abbrev last : Marker
last = (101, codes "a3")

first_step : later last late ≡ true
unfolding later
first_step = refl

second_step : later late early ≡ true
unfolding later bytes_gt utf8
second_step = refl

later_transitive_example : later last early ≡ true
later_transitive_example = later_transitive last late early first_step second_step

early_covered : want_covers late early ≡ true
unfolding want_covers later bytes_gt utf8
early_covered = refl

abbrev encode : Text → Raises Bytes
encode t = ok (0x0a ∷ [])

abbrev file : Vectors
file = record { decode = []; apply_cases = built_apply; covers = built_covers }

errors-nil_iff_rules_example :
    (errors encode file ≡ ok [])
    ↔ (built : Vectors) × (build encode ≡ ok built)
      × (file.decode ≡ built.decode)
      × All StatesRule file.apply_cases
      × All StatesCover file.covers
errors-nil_iff_rules_example = errors-nil_iff_rules encode file

abbrev events : List Event
events = (true, early) ∷ (false, last) ∷ (true, late) ∷ []

is_read-boundary_example :
    is_read (boundary none events) early ≡ (told events early || is_read none early)
is_read-boundary_example = is_read-boundary none events early

-- The last marker is a contact's, and leaves the boundary where it was.
contact_ignored : boundary none events ≡ some late
unfolding boundary want_apply later bytes_gt utf8
contact_ignored = refl

either_order : {A : Type 0} (x a b : A) → Mem x (a ∷ b ∷ []) → Mem x (b ∷ a ∷ [])
either_order x a b k =
    Or.elim Mem-prop (mem-cons.0 k) (λ p. rw p (mem-cons_of_mem b mem-cons_self))
      (λ more.
        Or.elim Mem-prop (mem-cons.0 more) (λ p. rw p mem-cons_self) (λ n. absurd (not-mem-nil n)))

boundary_converges_example :
    ((message : Marker)
      → is_read (boundary none ((true, early) ∷ (true, late) ∷ [])) message
        ≡ is_read (boundary none ((true, late) ∷ (true, early) ∷ [])) message)
    × Agree
        (boundary none ((true, early) ∷ (true, late) ∷ []))
        (boundary none ((true, late) ∷ (true, early) ∷ []))
boundary_converges_example =
    boundary_converges none ((true, early) ∷ (true, late) ∷ []) ((true, late) ∷ (true, early) ∷ [])
      (λ m. (
        either_order (true, m) (true, early) (true, late),
        either_order (true, m) (true, late) (true, early),
      ))
