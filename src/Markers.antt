-- ===== src/Markers.antt =====
-- conformance/check_read_markers.py: the one order on (sent_at_ms, message_id), and the rules that
-- `check` holds the cases `apply` and `covers` against. A text is the list of its code points.
mod Accepted
pub mod Cases
mod Converged
mod Folding
pub mod Order
mod Tests
use construct_protos.Prelude.{
  ℕ, List, [], ◌∷◌, Bool, true, false, not, ◌&&◌, ◌||◌, Option, none, some, ltb, ◌==◌,
  if◌then◌else◌,
}
use construct_protos.Bytes.{Bytes}
use construct_protos.Proto.{utf8}

-- `>` on bytes
unfoldable pub bytes_gt : Bytes → Bytes → Bool
bytes_gt [] ys = false
bytes_gt (x ∷ xs) [] = true
bytes_gt (x ∷ xs) (y ∷ ys) =
    let rest = bytes_gt xs ys in if ltb y x then true else if x == y then rest else false

-- (sent_at_ms, message_id)
abbrev pub Marker : Type 0
Marker = ℕ × List ℕ

unfoldable pub later : Marker → Marker → Bool
later a b =
    if ltb b.0 a.0 then true else if a.0 == b.0 then bytes_gt (utf8 a.1) (utf8 b.1) else false

pub data Verdict : Type 0 where
  drop apply ignore : Verdict

-- `want` of an apply case, from own account or not, the boundary held and the marker
unfoldable pub want_apply : Bool → Option Marker → Marker → Verdict
want_apply false held marker = drop
want_apply true none marker = apply
want_apply true (some held) marker = if later marker held then apply else ignore

-- `want` of a covers case
unfoldable pub want_covers : Marker → Marker → Bool
want_covers boundary message = not (later message boundary)
