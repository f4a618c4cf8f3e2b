-- ===== src/FreeListPool.antt =====
-- opool.cc: `ObjectPool`, arrays of objects and a list of the freed ones. A pointer is the number of its
-- array and the index there; each `new T[NodeCapacity]` gives a new array. The objects are not modelled.
pub mod Invariant
mod Tests
use mod_cpp.Common.{
  ℕ, zero, suc, ◌+◌, Bool, true, false, not, leb, ◌==◌, if◌then◌else◌, List, [], ◌∷◌, ◌++◌,
}
use mod_cpp.Common.Outcome.{Outcome, ok, assert_failed, ◌>>=◌, ◌>>◌, assert}

pub record Pointer : Type 0 where
  pub array : ℕ
  pub index : ℕ

pub record MemoryNode : Type 0 where
  pub mem : ℕ
  pub cur_free_idx : ℕ

-- `mem_node_list` has the latest node first.
pub record ObjectPool : Type 0 where
  pub mem_node_list : List MemoryNode
  pub freelist : List Pointer

abbrev pub size {ℓ} : {A : Type ℓ} → List A → ℕ
size [] = 0
size (a ∷ l) = suc (size l)

module _ (capacity : ℕ) where
  abbrev pub full : MemoryNode → Bool
  full n = leb capacity n.cur_free_idx

  -- `emplace_back()`
  abbrev pub emplace_back : List MemoryNode → List MemoryNode
  emplace_back ns = record { mem = size ns; cur_free_idx = 0 } ∷ ns

  -- `ObjectPool()`
  abbrev pub new_pool : ObjectPool
  new_pool = record { mem_node_list = emplace_back []; freelist = [] }

  -- `MemoryNode::allocate`, on the latest node
  unfoldable pub node_allocate :
      ObjectPool → MemoryNode → List MemoryNode → Outcome (Pointer × ObjectPool)
  node_allocate p n ns = do
    assert (not (full n))
    ok (
      record { array = n.mem; index = n.cur_free_idx },
      record p { mem_node_list = record n { cur_free_idx = n.cur_free_idx + 1 } ∷ ns },
    )

  -- `allocate` with an empty free list
  unfoldable pub allocate_from : ObjectPool → List MemoryNode → Outcome (Pointer × ObjectPool)
  unfolding node_allocate
  allocate_from p [] = assert_failed
  allocate_from p (n ∷ ns) =
      if full n
      then node_allocate p (record { mem = size (n ∷ ns); cur_free_idx = 0 }) (n ∷ ns)
      else node_allocate p n ns

  unfoldable pub allocate_free : ObjectPool → List Pointer → Outcome (Pointer × ObjectPool)
  unfolding allocate_from
  allocate_free p [] = allocate_from p p.mem_node_list
  allocate_free p (res ∷ rest) = ok (res, record p { freelist = rest })

  -- `New`, whose pointer is that of `allocate`
  unfoldable pub allocate : ObjectPool → Outcome (Pointer × ObjectPool)
  unfolding allocate_free
  allocate p = allocate_free p p.freelist

-- `Release`
unfoldable pub release : ObjectPool → Pointer → ObjectPool
release p obj = record p { freelist = p.freelist ++ obj ∷ [] }
