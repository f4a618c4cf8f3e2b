-- ===== src/FreeListPool/Tests.antt =====
-- `object_pool_routine` for the pointers, and the theorems at pools of nodes of four objects.
use mod_cpp.Common.{ℕ, zero, suc, ◌≡◌, refl, Bool, true, false, List, [], ◌∷◌, arith}
use mod_cpp.Common.Outcome.{Outcome, ok, ◌>>=◌, Returns}
use mod_cpp.FreeListPool.{Pointer, ObjectPool, new_pool, allocate, release}
use mod_cpp.FreeListPool.Invariant.{Inv, Made, set_live, new_pool-Inv, pool_allocate_correct}

unfoldable new_loop : ℕ → ObjectPool → Outcome (List Pointer × ObjectPool)
unfolding allocate
new_loop zero p = ok ([], p)
new_loop (suc k) p = do (x, q) ← allocate 4 p; (xs, r) ← new_loop k q; ok (x ∷ xs, r)

unfoldable release_loop : List Pointer → ObjectPool → ObjectPool
unfolding release
release_loop [] p = p
release_loop (x ∷ xs) p = release_loop xs (release p x)

-- The two pointers that `New` returns at the end
unfoldable object_pool_routine : Outcome (Pointer × Pointer)
unfolding new_loop release_loop
object_pool_routine = do
  (vec, p) ← new_loop 16 (new_pool 4)
  (p1, q) ← allocate 4 (release_loop vec p)
  (p2, r) ← allocate 4 q
  let s = release (release r p1) p2
  ok (p1, p2)

-- They are the two that were freed first.
object_pool_routine_reuses :
    object_pool_routine ≡ ok (record { array = 0; index = 0 }, record { array = 0; index = 1 })
unfolding object_pool_routine
object_pool_routine_reuses = refl

pool_allocate_correct_example : Returns (Made 4 (λ _ _. false)) (allocate 4 (new_pool 4))
pool_allocate_correct_example =
    pool_allocate_correct 4 (new_pool 4) (λ _ _. false) (omega arith) (new_pool-Inv 4)

abbrev first : Pointer
first = record { array = 0; index = 0 }

abbrev one_live : ℕ → ℕ → Bool
one_live = set_live (λ _ _. false) first true

-- The pool after one `New`
abbrev used : ObjectPool
used = record { mem_node_list = record { mem = 0; cur_free_idx = 1 } ∷ []; freelist = [] }

used-Inv : Inv 4 used one_live
used-Inv = record {
  nodes = (refl, omega arith, λ b i h. ground arith);
  distinct = tt;
  free_dead = λ b i h. ground arith;
  free_carved = λ b i h. ground arith;
  live_carved = λ b i h. ground arith;
}
