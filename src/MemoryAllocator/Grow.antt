-- ===== src/MemoryAllocator/Grow.antt =====
-- `create_memory_node`: a new node becomes a free region.
use mod_cpp.Common.{
  ℕ, ◌+◌, ◌≤◌, ◌<◌, ◌^◌, ◌≡◌, true, false, leb, Bool-cases, inl, inr, Option, some, List, ◌∷◌,
  arith,
}
use mod_cpp.Common.Outcome.{ok}
use mod_cpp.MemoryAllocator.{MemoryAllocator, inserted, create_memory_node}
use mod_cpp.MemoryAllocator.Cover.{owned, Cover-node}
use mod_cpp.MemoryAllocator.Invariant.{Holding, IsValid, insert-held, Holding-insert}

-- What `new uint8_t[NodeSize]` promises where it returns: memory apart from the other nodes, and
-- below 2 ^ 64.
pub record IsNewArray (node_size : ℕ) (new_array : List ℕ → Option ℕ) : Type 0 where
  pub apart :
      (nodes : List ℕ) (m q : ℕ)
      → new_array nodes ≡ some m
      → m ≤ q
      → q < m + node_size
      → owned node_size nodes q ≡ false
  pub below : (nodes : List ℕ) (m : ℕ) → new_array nodes ≡ some m → m + node_size < 2 ^ 64

module _ {node_size : ℕ} {new_array : List ℕ → Option ℕ} (law : IsNewArray node_size new_array)
    (a : MemoryAllocator) (node : ℕ) (given : new_array a.memory_node_list ≡ some node)
    (v : IsValid node_size a) where
  abbrev grown : MemoryAllocator
  grown = record a { memory_node_list = node ∷ a.memory_node_list }

  -- An interval of owned memory lies on one side of the new node.
  beside :
      (l r : ℕ)
      → ((q : ℕ) → l ≤ q → q < r → owned node_size a.memory_node_list q ≡ true)
      → l < r
      → l < node + node_size
      → 0 < node_size
      → r ≤ node
  beside l r own lt below pos = elim (Bool-cases (leb r node)) [
    | inl before ↦ ground arith
    | inr after ↦ elim (Bool-cases (leb l node)) [
      | inl around ↦ ground (arith, own node, law.apart a.memory_node_list node node given)
      | inr within ↦ ground (arith, own l, law.apart a.memory_node_list node l given)
    ]
  ]

  grown-Holding : 0 < node_size → Holding node_size grown node (node + node_size)
  grown-Holding pos = record {
    books = record {
      right_of = v.books.right_of;
      left_of = v.books.left_of;
      listed = v.books.listed;
      known = v.books.known;
      positive = v.books.positive;
      fits = v.books.fits;
      ordered = v.books.ordered;
    };
    apart = record {
      whole = omega arith;
      free_free = v.apart.free_free;
      used_used = v.apart.used_used;
      used_positive = v.apart.used_positive;
      free_used = v.apart.free_used;
      free_held = λ l r e p lt.
          beside l r (λ q. v.cover.free_owned l r q e) (v.books.positive l r e) lt pos;
      used_held = λ l n e p lt.
          beside l (l + n) (λ q. v.cover.used_owned l n q e)
            (omega (arith, v.apart.used_positive l n e)) lt pos;
    };
    cover = Cover-node node_size a node v.cover;
    small = law.below a.memory_node_list node given;
    used_small = v.used_small;
  }

  pub create-ok :
      0 < node_size
      → create_memory_node node_size new_array a ≡ ok (inserted grown node (node + node_size))
  unfolding create_memory_node
  create-ok pos = rw given (insert-held (grown-Holding pos) (omega arith))

  pub create-IsValid : 0 < node_size → IsValid node_size (inserted grown node (node + node_size))
  create-IsValid pos = Holding-insert (grown-Holding pos) (omega arith)
