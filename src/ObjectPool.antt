-- ===== src/ObjectPool.antt =====
-- object-pool.cc: `ObjectPool`, chunks of raw memory with a free list through the chunks themselves.
-- A pointer is its address. A chunk holds a pointer of `pointer_size` bytes, then the object. The size
-- of a chunk (`get_chunk_size()`), `NodeCapacity` and the addresses that `new uint8_t[node_size()]`
-- returns (`none` for std::bad_alloc) are parameters. The objects are not modelled: their constructors
-- and destructors are taken to leave the pool alone and not to throw.
pub mod Invariant
pub mod Methods
mod Tests
use mod_cpp.Common.{
  ℕ, ◌+◌, ◌-◌, ◌*◌, ◌%◌, Bool, true, false, not, ltb, ◌==◌, if◌then◌else◌, update, Option, none,
  some, is_some, List, [], ◌∷◌,
}
use mod_cpp.Common.Outcome.{Outcome, ok, thrown, assert_failed, ◌>>=◌, ◌>>◌, assert}

pub record MemoryNode : Type 0 where
  pub mem : ℕ
  pub current : ℕ

-- `memory_node_list` has the latest node first; `free_list` is `none` for a null pointer, and `links`
-- says which pointer stands at the start of a chunk.
pub record ObjectPool : Type 0 where
  pub memory_node_list : List MemoryNode
  pub free_list : Option ℕ
  pub links : ℕ → Option ℕ

-- `sizeof (uint8_t *)`
abbrev pub pointer_size : ℕ
pointer_size = 8

abbrev pub to_object : ℕ → ℕ
to_object ptr = ptr + pointer_size

abbrev pub to_rawmemory : ℕ → ℕ
to_rawmemory obj = obj - pointer_size

module _ (chunk_size capacity : ℕ) where
  abbrev pub node_size : ℕ
  node_size = chunk_size * capacity

  unfoldable pub has_free_space : MemoryNode → Outcome Bool
  has_free_space n = do
    assert ((n.current - n.mem) % chunk_size == 0)
    ok (ltb n.current (n.mem + node_size))

  unfoldable pub allocate_memory : MemoryNode → Outcome (ℕ × MemoryNode)
  unfolding has_free_space
  allocate_memory n = do
    space ← has_free_space n
    assert space
    ok (n.current, record n { current = n.current + chunk_size })

  -- `get_lasted_node`, with the older nodes
  unfoldable pub get_lasted_node : List MemoryNode → Outcome (MemoryNode × List MemoryNode)
  get_lasted_node [] = assert_failed
  get_lasted_node (n ∷ ns) = ok (n, ns)

  module _ (new_array : List MemoryNode → Option ℕ) where
    abbrev pub allocated_node : List MemoryNode → Option ℕ → Outcome (List MemoryNode)
    allocated_node ns none = thrown "std::bad_alloc"
    allocated_node ns (some mem) = ok (record { mem = mem; current = mem } ∷ ns)

    unfoldable pub create_memory_node : List MemoryNode → Outcome (List MemoryNode)
    create_memory_node ns = allocated_node ns (new_array ns)

    -- `ObjectPool()`
    unfoldable pub new_pool : Outcome ObjectPool
    unfolding create_memory_node
    new_pool = do
      ns ← create_memory_node []
      ok (record { memory_node_list = ns; free_list = none; links = λ _. none })

    -- the last step of `New` with an empty free list
    unfoldable pub carve : ObjectPool → List MemoryNode → Outcome (ℕ × ObjectPool)
    unfolding has_free_space allocate_memory get_lasted_node
    carve p ns = do
      (node, rest) ← get_lasted_node ns
      space ← has_free_space node
      assert space
      (mem, node') ← allocate_memory node
      ok (to_object mem, record p { memory_node_list = node' ∷ rest })

    -- `New` with an empty free list
    unfoldable pub new_from_node : ObjectPool → Outcome (ℕ × ObjectPool)
    unfolding has_free_space get_lasted_node create_memory_node carve
    new_from_node p = do
      (latest, older) ← get_lasted_node p.memory_node_list
      space ← has_free_space latest
      ns ← if space then ok p.memory_node_list else create_memory_node p.memory_node_list
      carve p ns

    -- `New`: the pointer to the object
    unfoldable pub new_from : ObjectPool → Option ℕ → Outcome (ℕ × ObjectPool)
    unfolding new_from_node
    new_from p none = new_from_node p
    new_from p (some chunk) = ok (to_object chunk, record p { free_list = p.links chunk })

    unfoldable pub new_object : ObjectPool → Outcome (ℕ × ObjectPool)
    unfolding new_from
    new_object p = new_from p p.free_list

-- `Release`
unfoldable pub release : ObjectPool → ℕ → ObjectPool
release p obj =
    let mem = to_rawmemory obj in
    record p { links = update p.links mem p.free_list; free_list = some mem }
