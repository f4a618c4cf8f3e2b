-- ===== src/Common/RefCount.antt =====
-- How many of the first `n` pointers point to a cell.
use Prim.Native.Nat.{ℕ, zero, suc, ◌+◌, ◌≤◌, ◌<◌}
use mathlib.Core.Path.{◌≡◌, refl}
use mathlib.Core.Option.{Option, none, some}
use native.Mathlib.Omega.{arith}
use mod_cpp.Common.Tests.{◌==◌, if◌then◌else◌, update}

abbrev pub points : Option ℕ → ℕ → ℕ
points none c = 0
points (some d) c = if d == c then 1 else 0

unfoldable pub refs : ℕ → (ℕ → Option ℕ) → ℕ → ℕ
refs zero ptr c = 0
refs (suc n) ptr c = points (ptr n) c + refs n ptr c

pub refs-update_above :
    (n : ℕ) (ptr : ℕ → Option ℕ) (i : ℕ) (o : Option ℕ) (c : ℕ)
    → n ≤ i
    → refs n (update ptr i o) c ≡ refs n ptr c
unfolding refs
refs-update_above zero ptr i o c h = refl
refs-update_above (suc n) ptr i o c h = ground (arith, refs-update_above n ptr i o c)

-- A pointer below the bound is changed: what it pointed to loses one, what it points to gains one.
pub refs-update :
    (n : ℕ) (ptr : ℕ → Option ℕ) (i : ℕ) (o : Option ℕ) (c : ℕ)
    → i < n
    → refs n (update ptr i o) c + points (ptr i) c ≡ refs n ptr c + points o c
unfolding refs
refs-update zero ptr i o c h = absurd (omega arith)
refs-update (suc n) ptr i o c h =
    ground (arith, refs-update n ptr i o c, refs-update_above n ptr i o c)

-- A pointer below the bound is counted.
pub refs-pos : (n : ℕ) (ptr : ℕ → Option ℕ) (i c : ℕ) → i < n → ptr i ≡ some c → 0 < refs n ptr c
unfolding refs
refs-pos zero ptr i c h e = absurd (omega arith)
refs-pos (suc n) ptr i c h e = ground (arith, refs-pos n ptr i c)

pub refs_zero :
    (n : ℕ) (ptr : ℕ → Option ℕ) (c : ℕ) → ((i : ℕ) → points (ptr i) c ≡ 0) → refs n ptr c ≡ 0
unfolding refs
refs_zero zero ptr c h = refl
refs_zero (suc n) ptr c h = ground (arith, h n, refs_zero n ptr c h)
