-- ===== src/Prelude/Order.antt =====
-- `<` on the native numbers is well-founded, with a witness that computes.
use Prim.Native.Nat.{ℕ, zero, suc, ◌<◌}
use mathlib.Core.WellFounded.{Acc, WellFounded}
use native.Mathlib.Omega.{arith}

reached : (bound n : ℕ) → n < bound → Acc ◌<◌ n
reached zero n h = absurd (omega arith)
reached (suc bound) n h = Acc.intro n (λ m below. reached bound m (omega arith))

unfoldable pub lt_wf : WellFounded ◌<◌
unfolding reached
lt_wf = record { apply = λ n. reached (suc n) n (omega arith) }
