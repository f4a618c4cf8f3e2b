-- ===== src/MemoryAllocator/Tests.antt =====
-- The theorems at an allocator with nodes of 64 bytes and memory for one of them.
use mod_cpp.Common.{
  ℕ, ◌+◌, ◌≤◌, ◌<◌, ◌==◌, ◌≡◌, refl, true, false, ◌⊎◌, Option, none, some, update, List, [], ◌∷◌,
  arith,
}
use mod_cpp.Common.Outcome.{ok, thrown, assert_failed, ◌>>=◌, Returns}
use mod_cpp.MemoryAllocator.{MemoryAllocator, new, allocate, release, deleted, inserted}
use mod_cpp.MemoryAllocator.Cover.{owned, IsFree, IsUsed}
use mod_cpp.MemoryAllocator.Invariant.{IsValid}
use mod_cpp.MemoryAllocator.Grow.{IsNewArray}
use mod_cpp.MemoryAllocator.Allocate.{Allocated, allocate_correct}
use mod_cpp.MemoryAllocator.Release.{Released, IsCoalesced, release_correct, release-unknown}
use mod_cpp.MemoryAllocator.Sessions.{
  Reach, start, allocated, Reach-IsValid, every_byte_once, blocks_apart, release-allocate,
  allocate-too_large,
}

abbrev one_node : List ℕ → Option ℕ
one_node [] = some 4096
one_node (m ∷ ms) = none

one_node-IsNewArray : IsNewArray 64 one_node
one_node-IsNewArray = record { apart = apart; below = below }
  where
    apart :
        (nodes : List ℕ) (m q : ℕ)
        → one_node nodes ≡ some m
        → m ≤ q
        → q < m + 64
        → owned 64 nodes q ≡ false
    apart [] m q e h k = refl
    apart (n ∷ ns) m q e h k = cc

    below : (nodes : List ℕ) (m : ℕ) → one_node nodes ≡ some m → m + 64 < 18446744073709551616
    below [] m e = ground arith
    below (n ∷ ns) m e = cc

-- After the constructor, and after `allocate(16)` and `allocate(8)`.
abbrev blank : MemoryAllocator
blank = record {
  memory_node_list = [];
  free_memory_region = [];
  left2right = λ _. none;
  right2left = λ _. none;
  addr2len = λ _. none;
}

abbrev fresh : MemoryAllocator
fresh = inserted (record blank { memory_node_list = 4096 ∷ [] }) 4096 4160

fresh-Reach : Reach 64 one_node fresh
unfolding new
fresh-Reach = start refl

abbrev cut : MemoryAllocator → ℕ → ℕ → ℕ → MemoryAllocator
cut a l r n =
    let b = inserted (deleted a l r) (l + n) r in
    record b { addr2len = update b.addr2len l (some n) }

abbrev one_block : MemoryAllocator
one_block = cut fresh 4096 4160 16

abbrev two_blocks : MemoryAllocator
two_blocks = cut one_block 4112 4160 8

one_block-Reach : Reach 64 one_node one_block
unfolding allocate
one_block-Reach = allocated 16 4096 fresh-Reach (omega arith) refl

two_blocks-Reach : Reach 64 one_node two_blocks
unfolding allocate
two_blocks-Reach = allocated 8 4112 one_block-Reach (omega arith) refl

node_pos : 0 < 64
node_pos = omega arith

fresh-IsValid : IsValid 64 fresh
fresh-IsValid = Reach-IsValid one_node-IsNewArray node_pos fresh-Reach

one_block-IsValid : IsValid 64 one_block
one_block-IsValid = Reach-IsValid one_node-IsNewArray node_pos one_block-Reach

two_blocks-IsValid : IsValid 64 two_blocks
two_blocks-IsValid = Reach-IsValid one_node-IsNewArray node_pos two_blocks-Reach

one_block-IsCoalesced : IsCoalesced one_block
one_block-IsCoalesced l m r e f = ground arith

allocate_correct_example :
    Returns (λ r. Allocated 64 one_block 8 r.0 r.1) (allocate 64 one_node one_block 8)
allocate_correct_example =
    allocate_correct one_node-IsNewArray one_block 8 one_block-IsValid (omega arith) (omega arith)
      (λ short. absurd (omega (arith, short 4112 4160 refl)))

allocate-too_large_example :
    allocate 64 one_node one_block 65 ≡ thrown "can't allocate memory larger than NodeSize"
allocate-too_large_example = allocate-too_large 64 one_node one_block 65 (omega arith)

release_correct_example : Returns (Released 64 two_blocks 4096 16) (release two_blocks 4096)
release_correct_example = release_correct two_blocks 4096 16 two_blocks-IsValid refl

release-unknown_example : release one_block 4100 ≡ assert_failed
release-unknown_example = release-unknown one_block 4100 refl

every_byte_once_example :
    ((owned 64 two_blocks.memory_node_list 4100 ≡ true)
      → IsFree two_blocks 4100 ⊎ IsUsed two_blocks 4100)
    × (IsFree two_blocks 4100 ⊎ IsUsed two_blocks 4100
        → owned 64 two_blocks.memory_node_list 4100 ≡ true)
    × ¬ (IsFree two_blocks 4100 × IsUsed two_blocks 4100)
every_byte_once_example =
    every_byte_once one_node-IsNewArray node_pos two_blocks 4100 two_blocks-Reach

blocks_apart_example : (4096 + 16 ≤ 4112) ⊎ (4112 + 8 ≤ 4096)
blocks_apart_example =
    blocks_apart one_node-IsNewArray node_pos two_blocks 4096 16 4112 8 two_blocks-Reach refl refl
      (omega arith)

release-allocate_example :
    Returns
      (λ c. ((q : ℕ) → c.addr2len q ≡ one_block.addr2len q) × IsValid 64 c)
      (allocate 64 one_node one_block 8 >>= λ (p, b). release b p)
release-allocate_example =
    release-allocate one_node-IsNewArray node_pos one_block 8 one_block-Reach (omega arith)
      (omega arith) (λ short. absurd (omega (arith, short 4112 4160 refl)))

-- The block of no bytes and the next one have the same address.
same_address :
    (allocate 64 one_node one_block 0 >>= λ (p, b).
    allocate 64 one_node b 8 >>= λ (p', c). ok (p == p'))
    ≡ ok true
unfolding allocate
same_address = refl
