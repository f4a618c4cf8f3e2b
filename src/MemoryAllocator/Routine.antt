-- ===== src/MemoryAllocator/Routine.antt =====
-- `memory_allocator_routine`. What it writes into the blocks is left out.
use mod_cpp.Common.{ℕ, zero, suc, ◌+◌, ◌*◌, ◌≡◌, refl, Option, some, List, [], ◌∷◌, ◌++◌, length}
use mod_cpp.Common.Outcome.{Outcome, ok, ◌>>=◌}
use mod_cpp.MemoryAllocator.{MemoryAllocator, new, allocate, release}

module _ (node_size : ℕ) (new_array : List ℕ → Option ℕ) where
  -- `for (int i = 8; i < 1024; i += 8)`, with the rounds that are left and `i`
  allocate_loop : ℕ → ℕ → List ℕ → MemoryAllocator → Outcome (List ℕ × MemoryAllocator)
  allocate_loop zero i vec a = ok (vec, a)
  allocate_loop (suc rounds) i vec a = do
    (ptr, b) ← allocate node_size new_array a i
    allocate_loop rounds (i + 8) (vec ++ ptr ∷ []) b

  release_loop : List ℕ → MemoryAllocator → Outcome MemoryAllocator
  release_loop [] a = ok a
  release_loop (ptr ∷ vec) a = do b ← release a ptr; release_loop vec b

  memory_allocator_routine : Outcome MemoryAllocator
  unfolding allocate_loop release_loop new allocate release
  memory_allocator_routine = do
    a ← new node_size new_array
    (vec, b) ← allocate_loop 127 8 [] a
    c ← release_loop vec b
    (vec2, d) ← allocate_loop 127 8 [] c
    release_loop vec2 d

-- Nodes one after the other, a gap of 16 bytes between them.
abbrev spaced : List ℕ → Option ℕ
spaced nodes = some (4096 + (length nodes) * 4112)

returned : Outcome MemoryAllocator → ℕ
returned (ok a) = length a.free_memory_region
returned _ = 0

-- Everything is given back: the free regions are the 18 nodes.
routine_runs : returned (memory_allocator_routine 4096 spaced) ≡ 18
unfolding memory_allocator_routine returned
routine_runs = refl
