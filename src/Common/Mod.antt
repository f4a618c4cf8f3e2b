-- ===== src/Common/Mod.antt =====
-- Remainders: two places of one window are not the same index.
use native.Mathlib.Nat.{div-add-mod, mul-le-mul_left}
use Prim.Native.Nat.{ℕ, ◌+◌, ◌*◌, ◌/◌, ◌%◌, ◌≤◌, ◌<◌}
use mathlib.Core.Logic.{◌≢◌}
use native.Mathlib.Omega.{arith}
use native.Mathlib.Decide.{dec_le}

pub mod-inj : (m a b : ℕ) → a < b → b < a + m → a % m ≢ b % m
mod-inj m a b l h e = elim (dec_le (b / m) (a / m)) [
  | yes q ↦ omega (arith, div-add-mod a m, div-add-mod b m, mul-le-mul_left m q)
  | no q ↦ omega (arith, div-add-mod a m, div-add-mod b m, further (omega arith))
]
  where
    further : a / m + 1 ≤ b / m → m * (a / m) + m ≤ m * (b / m)
    further q = omega (arith, mul-le-mul_left m q)
