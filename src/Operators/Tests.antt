-- ===== src/Operators/Tests.antt =====
-- `operator_rountine`, and the theorems at its objects.
use mod_cpp.Common.{◌≡◌, refl}
use mod_cpp.Common.Int.{pos, negsuc, ◌+ℤ◌, ◌*ℤ◌}
use mod_cpp.Operators.{A, operator_rountine}

abbrev x : A
x = record { a = pos 1; b = pos 2; c = pos 3 }

abbrev y : A
y = record { a = pos 4; b = negsuc 5; c = pos 6 }

routine_prints : operator_rountine ≡ (pos 21, record { a = pos 4; b = pos 10; c = pos 18 })
unfolding operator_rountine ◌+ℤ◌ ◌*ℤ◌
routine_prints = refl
