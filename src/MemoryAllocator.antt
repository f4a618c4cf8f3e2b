-- ===== src/MemoryAllocator.antt =====
-- memory_allocator.cc: `MemoryAllocator`. A pointer is its address, a number below 2 ^ 64. `NodeSize`
-- and the addresses that `new uint8_t[NodeSize]` returns (as a function of the nodes so far, `none`
-- for std::bad_alloc) are parameters. The bytes of the nodes are not modelled: the allocator never reads them.
pub mod Regions
pub mod Held
pub mod Apart
pub mod Cover
pub mod Invariant
pub mod Release
pub mod Grow
pub mod Take
pub mod Allocate
pub mod Sessions
pub mod Zero
mod Routine
mod Tests
use mod_cpp.Common.{
  ℕ, ◌+◌, ◌-◌, ◌%◌, ◌^◌, Bool, true, false, not, ltb, ◌==◌, if◌then◌else◌, update, Option, none,
  some, is_some, List, [], ◌∷◌, ◌++◌,
}
use mod_cpp.Common.Outcome.{Outcome, ok, ◌>>=◌, ◌>>◌, assert, throw_if, thrown, assert_failed}
use Regions.{MemoryRegion, contains, insert, erase, lower_bound, at_least}

-- `memory_node_list` holds the addresses of the nodes.
pub record MemoryAllocator : Type 0 where
  pub memory_node_list : List ℕ
  pub free_memory_region : List MemoryRegion
  pub left2right : ℕ → Option ℕ
  pub right2left : ℕ → Option ℕ
  pub addr2len : ℕ → Option ℕ

abbrev pub region : ℕ → ℕ → MemoryRegion
region left right = record { len = right - left; left = left; right = right }

-- The state after the three `erase` calls of `delete_memory_region`, and after the three insertions
-- of `insert_memory_region`.
abbrev pub deleted : MemoryAllocator → ℕ → ℕ → MemoryAllocator
deleted a left right = record a {
  free_memory_region = erase (region left right) a.free_memory_region;
  left2right = update a.left2right left none;
  right2left = update a.right2left right none;
}

abbrev pub inserted : MemoryAllocator → ℕ → ℕ → MemoryAllocator
inserted a left right = record a {
  free_memory_region = insert (region left right) a.free_memory_region;
  left2right = update a.left2right left (some right);
  right2left = update a.right2left right (some left);
}

unfoldable pub delete_memory_region : MemoryAllocator → ℕ → ℕ → Outcome MemoryAllocator
unfolding contains erase
delete_memory_region a left right = do
  assert (contains (region left right) a.free_memory_region)
  assert (is_some (a.right2left right))
  assert (is_some (a.left2right left))
  ok (deleted a left right)

unfoldable pub insert_memory_region : MemoryAllocator → ℕ → ℕ → Outcome MemoryAllocator
unfolding contains insert
insert_memory_region a left right = do
  assert (not (contains (region left right) a.free_memory_region))
  assert (not (is_some (a.right2left right)))
  assert (not (is_some (a.left2right left)))
  ok (inserted a left right)

-- `assert(iter != end())`, and the element there
abbrev pub dereference : Option MemoryRegion → Outcome MemoryRegion
dereference none = assert_failed
dereference (some m) = ok m

-- The merge with the free region that ends at `left`: the new left end.
unfoldable pub merge_prev : MemoryAllocator → ℕ → Option ℕ → Outcome (ℕ × MemoryAllocator)
unfolding delete_memory_region
merge_prev a left none = ok (left, a)
merge_prev a left (some old_left) = do b ← delete_memory_region a old_left left; ok (old_left, b)

-- The merge with the free region that starts at `right`: the new right end.
unfoldable pub merge_next : MemoryAllocator → ℕ → Option ℕ → Outcome (ℕ × MemoryAllocator)
unfolding delete_memory_region
merge_next a right none = ok (right, a)
merge_next a right (some old_right) = do
  b ← delete_memory_region a right old_right
  ok (old_right, b)

-- The rest of `release` once `addr2len[mem]` is known to be `n`.
unfoldable pub release_block : MemoryAllocator → ℕ → ℕ → Outcome MemoryAllocator
unfolding merge_prev merge_next insert_memory_region
release_block a mem n = do
  let b = record a { addr2len = update a.addr2len mem none }
  (left, c) ← merge_prev b mem (b.right2left mem)
  (right, d) ← merge_next c (mem + n) (c.left2right (mem + n))
  insert_memory_region d left right

abbrev pub found_length : Option ℕ → Outcome ℕ
found_length none = assert_failed
found_length (some n) = ok n

unfoldable pub release : MemoryAllocator → ℕ → Outcome MemoryAllocator
unfolding release_block
release a mem = do n ← found_length (a.addr2len mem); release_block a mem n

-- `new uint8_t[NodeSize]`, which throws where there is no memory left
abbrev pub allocated_node : Option ℕ → Outcome ℕ
allocated_node none = thrown "std::bad_alloc"
allocated_node (some mem) = ok mem

module _ (node_size : ℕ) (new_array : List ℕ → Option ℕ) where
  unfoldable pub create_memory_node : MemoryAllocator → Outcome MemoryAllocator
  unfolding insert_memory_region
  create_memory_node a = do
    mem ← allocated_node (new_array a.memory_node_list)
    insert_memory_region (record a { memory_node_list = mem ∷ a.memory_node_list }) mem
        (mem + node_size)

  -- `MemoryAllocator()`
  unfoldable pub new : Outcome MemoryAllocator
  unfolding create_memory_node
  new = create_memory_node (record {
    memory_node_list = [];
    free_memory_region = [];
    left2right = λ _. none;
    right2left = λ _. none;
    addr2len = λ _. none;
  })

  -- The branch `if (iter == end())` of `allocate`.
  unfoldable pub grow_if_end : MemoryAllocator → Option MemoryRegion → Outcome MemoryAllocator
  unfolding create_memory_node
  grow_if_end a none = create_memory_node a
  grow_if_end a (some m) = ok a

  -- The rest of `allocate` with the region `m` found. `remain_len` is the size_t `alloc_len - mr_len`,
  -- so that it is zero exactly where the two lengths agree.
  unfoldable pub take_from : MemoryAllocator → ℕ → MemoryRegion → Outcome (ℕ × MemoryAllocator)
  unfolding delete_memory_region insert_memory_region
  take_from a alloc_len m = do
    let remain_len = (alloc_len + 2 ^ 64 - m.len) % 2 ^ 64
    b ← delete_memory_region a m.left m.right
    c ← if remain_len == 0 then ok b else insert_memory_region b (m.left + alloc_len) m.right
    ok (m.left, record c { addr2len = update c.addr2len m.left (some alloc_len) })

  unfoldable pub allocate : MemoryAllocator → ℕ → Outcome (ℕ × MemoryAllocator)
  unfolding grow_if_end take_from lower_bound
  allocate a alloc_len = do
    throw_if (ltb node_size alloc_len) "can't allocate memory larger than NodeSize"
    b ← grow_if_end a (lower_bound (at_least alloc_len) a.free_memory_region)
    m ← dereference (lower_bound (at_least alloc_len) b.free_memory_region)
    take_from b alloc_len m
