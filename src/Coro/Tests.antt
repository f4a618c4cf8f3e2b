-- ===== src/Coro/Tests.antt =====
-- The main program.
use mod_cpp.Common.{◌≡◌, refl, [], ◌∷◌}
use mod_cpp.Common.Outcome.{ok}
use mod_cpp.Coro.{coro_main}

coro_main_prints : coro_main 5 ≡ ok (2 ∷ 1 ∷ 0 ∷ [])
unfolding coro_main
coro_main_prints = refl
