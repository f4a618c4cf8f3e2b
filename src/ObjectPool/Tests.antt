-- ===== src/ObjectPool/Tests.antt =====
-- `opool_routine`, and the theorems at chunks of 16 bytes, four to a node.
use mod_cpp.Common.{
  ℕ, zero, suc, ◌+◌, ◌*◌, ◌≤◌, ◌≡◌, refl, Bool, false, ltb, ◌==◌, if◌then◌else◌, update, Option,
  none, some, List, [], ◌∷◌, ◌++◌, arith,
}
use mod_cpp.Common.Outcome.{Outcome, ok, ◌>>=◌, Returns}
use mod_cpp.ObjectPool.{MemoryNode, ObjectPool, new_pool, new_object, release, to_object}
use mod_cpp.ObjectPool.Invariant.{owned, Inv}
use mod_cpp.ObjectPool.Methods.{
  IsNewArray, Made, release-Inv, new_object_correct, new_object-release, new_pool_correct,
}

-- The end of the highest node.
past : List MemoryNode → ℕ
past [] = 4096
past (n ∷ ns) = if ltb (past ns) (n.mem + 64) then n.mem + 64 else past ns

abbrev new_array : List MemoryNode → Option ℕ
new_array ns = some (past ns)

owned-past : (ns : List MemoryNode) (a : ℕ) → past ns ≤ a → owned 16 4 ns a ≡ false
unfolding past
owned-past [] a h = refl
owned-past (n ∷ ns) a h = ground (arith, owned-past ns a)

new_array-IsNewArray : IsNewArray 16 4 new_array
new_array-IsNewArray = record { apart = λ ns m a e h k. owned-past ns a (ground arith) }

abbrev node : MemoryNode
node = record { mem = 4096; current = 4128 }

-- Chunk 4112 holds an object, chunk 4096 is free, and two chunks are not cut from the node yet.
abbrev sample : ObjectPool
sample = record { memory_node_list = node ∷ []; free_list = some 4096; links = λ _. none }

abbrev in_use : ℕ → Bool
in_use a = a == 4112

sample-Inv : Inv 16 4 sample in_use (4096 ∷ [])
sample-Inv = record {
  nodes = record { cut = 2; at = omega arith; within = omega arith; apart = λ a h k. refl };
  chain = (refl, refl);
  distinct = (refl, tt);
  free_dead = λ a h. ground arith;
  apart = λ a b h k lt. ground arith;
  inside = λ a b h k lt. ground arith;
}

new_object_correct_example : Returns (Made 16 4 in_use) (new_object 16 4 new_array sample)
unfolding past
new_object_correct_example =
    new_object_correct new_array-IsNewArray (omega arith) (omega arith) sample in_use (4096 ∷ [])
      4160 sample-Inv refl

new_object-release_example :
    Returns
      (λ r. (r.0 ≡ 4120) × (r.1.free_list ≡ some 4096) × (r.1.memory_node_list ≡ node ∷ []))
      (new_object 16 4 new_array (release sample 4120))
new_object-release_example =
    new_object-release new_array-IsNewArray (omega arith) (omega arith) sample 4120 (omega arith)

release-Inv_example :
    Inv 16 4 (release sample (to_object 4112)) (update in_use 4112 false) (4112 ∷ 4096 ∷ [])
release-Inv_example = release-Inv (4096 ∷ []) 4112 sample-Inv refl

new_pool_correct_example : Returns (λ p. Inv 16 4 p (λ _. false) []) (new_pool 16 4 new_array)
unfolding past
new_pool_correct_example =
    new_pool_correct new_array-IsNewArray (omega arith) (omega arith) 4096 refl

-- `for (auto i = 0; i < 16; ++i) vec.push_back(pool.New(i, i));`
new_loop : ℕ → List ℕ → ObjectPool → Outcome (List ℕ × ObjectPool)
new_loop zero vec p = ok (vec, p)
new_loop (suc n) vec p = do (o, q) ← new_object 16 4 new_array p; new_loop n (vec ++ o ∷ []) q

release_loop : List ℕ → ObjectPool → ObjectPool
release_loop [] p = p
release_loop (o ∷ vec) p = release_loop vec (release p o)

-- The addresses of `p1` and `p2`, and the pool at the end.
opool_routine : Outcome (ℕ × ℕ × ObjectPool)
opool_routine = do
  p ← new_pool 16 4 new_array
  (vec, q) ← new_loop 16 [] p
  let r = release_loop vec q
  (p1, s) ← new_object 16 4 new_array r
  (p2, t) ← new_object 16 4 new_array s
  ok (p1, p2, release (release t p1) p2)

abbrev freed : ℕ × ℕ × ObjectPool → Outcome (ℕ × ℕ × Option ℕ)
freed (p1, p2, p) = ok (p1, p2, p.free_list)

-- The last two objects released are the first to be used again; released once more, the second of them
-- is the first of the free list.
opool_routine_addresses :
    opool_routine >>= freed ≡ ok (4096 + 15 * 16 + 8, 4096 + 14 * 16 + 8, some (4096 + 14 * 16))
unfolding opool_routine new_loop release_loop new_pool new_object release past
opool_routine_addresses = refl
