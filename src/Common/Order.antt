-- ===== src/Common/Order.antt =====
-- `<` on the native numbers is well founded.
use Prim.Native.Nat.{ℕ, zero, suc, ◌<◌}
use mathlib.Core.WellFounded.{Acc, WellFounded}
use native.Mathlib.Omega.{arith}

acc_below : (k n : ℕ) → n < k → Acc ◌<◌ n
acc_below zero n h = absurd (omega arith)
acc_below (suc k) n h = Acc.intro n (λ m hm. acc_below k m (omega arith))

unfoldable pub lt_wf : WellFounded ◌<◌
unfolding acc_below
lt_wf = record { apply = λ n. acc_below (suc n) n (omega arith) }
