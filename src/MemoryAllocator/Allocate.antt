-- ===== src/MemoryAllocator/Allocate.antt =====
-- `allocate` takes the block from a shortest free region that is long enough.
use mod_cpp.Common.{
  ℕ, ◌+◌, ◌≤◌, ◌<◌, ◌≡◌, false, ltb, update, inl, inr, Option, none, some, Option-cases, List, ◌∷◌,
  arith,
}
use mod_cpp.Common.Outcome.{thrown, ◌>>=◌, Returns, Returns-map}
use mod_cpp.MemoryAllocator.{
  MemoryAllocator, region, inserted, create_memory_node, grow_if_end, take_from, allocate,
  dereference,
}
use mod_cpp.MemoryAllocator.Regions.{
  MemoryRegion, contains-insert, contains-lower_bound, lower_bound, lower_bound-none,
  lower_bound_least, at_least,
}
use mod_cpp.MemoryAllocator.Invariant.{IsValid}
use mod_cpp.MemoryAllocator.Grow.{IsNewArray, create-ok, create-IsValid}
use mod_cpp.MemoryAllocator.Take.{take_from_lem}

-- What `allocate(n)` makes of the state when it returns the address `p`.
pub record Allocated (node_size : ℕ) (a : MemoryAllocator) (n p : ℕ) (b : MemoryAllocator)
    : Type 0 where
  pub valid : IsValid node_size b
  pub blocks : b.addr2len ≡ update a.addr2len p (some n)
  -- No block of before reaches into [p, p + n).
  pub unused : (l k : ℕ) → a.addr2len l ≡ some k → l < p + n → l + k ≤ p
  -- If a free region was long enough, the block starts such a region, none of them is shorter, and no
  -- node is added.
  pub best :
      (l r : ℕ)
      → a.left2right l ≡ some r
      → l + n ≤ r
      → (k : ℕ) × (a.left2right p ≡ some (p + k)) × (n ≤ k) × (l + k ≤ r)
  pub kept :
      (l r : ℕ) → a.left2right l ≡ some r → l + n ≤ r → b.memory_node_list ≡ a.memory_node_list

module _ {node_size : ℕ} {new_array : List ℕ → Option ℕ} (law : IsNewArray node_size new_array)
    (a : MemoryAllocator) (n : ℕ) (v : IsValid node_size a) (pos : 0 < n) where
  take_found :
      (m : MemoryRegion)
      → lower_bound (at_least n) a.free_memory_region ≡ some m
      → Returns (λ r. Allocated node_size a n r.0 r.1) (take_from node_size new_array a n m)
  take_found m e =
      let (c, le) = contains-lower_bound n a.free_memory_region m e in
      let (known, sum) = v.books.known m c in
      Returns-map _ _ (take_from node_size new_array a n m)
        (take_from_lem new_array a n m v c pos le)
        λ r t. record {
          valid = t.valid;
          blocks = t.blocks;
          unused = t.unused;
          best = λ l q f long. (
            m.len,
            ground (arith, t.start),
            le,
            omega (
              arith,
              lower_bound_least n a.free_memory_region m (region l q) v.books.ordered e
                  (v.books.listed l q f) (omega arith),
            ),
          );
          kept = λ l q f long. t.nodes;
        }

  short :
      lower_bound (at_least n) a.free_memory_region ≡ none
      → (l r : ℕ) → a.left2right l ≡ some r
      → r < l + n
  short e l r f =
      omega (arith, lower_bound-none n a.free_memory_region (region l r) e (v.books.listed l r f))

  -- With no region long enough the new node is taken.
  take_grown :
      (node : ℕ)
      → lower_bound (at_least n) a.free_memory_region ≡ none
      → new_array a.memory_node_list ≡ some node
      → n ≤ node_size
      → Returns
          (λ r. Allocated node_size a n r.0 r.1)
          (create_memory_node node_size new_array a >>= λ b.
            dereference (lower_bound (at_least n) b.free_memory_region) >>= λ m.
            take_from node_size new_array b n m)
  take_grown node e given le =
      rw (create-ok law a node given v (omega arith))
        (elim (Option-cases (lower_bound (at_least n) b.free_memory_region)) [
          | inl end ↦ absurd (
              omega (
                arith,
                lower_bound-none n b.free_memory_region whole end
                    (ground (arith, contains-insert whole whole a.free_memory_region)),
              ))
          | inr (m, found) ↦
              let (c, long) = contains-lower_bound n b.free_memory_region m found in
              rw found (
                Returns-map _ _ (take_from node_size new_array b n m)
                  (take_from_lem new_array b n m (create-IsValid law a node given v (omega arith)) c
                    pos long)
                  λ r t. record {
                    valid = t.valid;
                    blocks = t.blocks;
                    unused = t.unused;
                    best = λ l q f reach. absurd (omega (arith, short e l q f));
                    kept = λ l q f reach. absurd (omega (arith, short e l q f));
                  })
        ])
    where
      b : MemoryAllocator
      b =
          inserted (record a { memory_node_list = node ∷ a.memory_node_list }) node
            (node + node_size)

      whole : MemoryRegion
      whole = region node (node + node_size)

  -- If no free region is long enough, there is memory for a new node.
  abbrev pub IsAvailable : Type 0
  IsAvailable =
      ((l r : ℕ) → a.left2right l ≡ some r → r < l + n)
      → (node : ℕ) × (new_array a.memory_node_list ≡ some node)

  -- `allocate` of 1 to `NodeSize` bytes succeeds on a valid allocator, unless a new node is needed
  -- and there is no memory for it: no assertion fails, exactly the block [p, p + n) is added to those
  -- in use, it overlaps none of them, and the state is valid again. Where a free region was long
  -- enough, the block starts a shortest such region and no node is added.
  pub allocate_correct :
      n ≤ node_size
      → IsAvailable
      → Returns (λ r. Allocated node_size a n r.0 r.1) (allocate node_size new_array a n)
  unfolding allocate grow_if_end
  allocate_correct le available =
      elim (Option-cases (lower_bound (at_least n) a.free_memory_region)) [
        | inl end ↦
            let (node, given) = available (short end) in
            rw (fits, end) (take_grown node end given le)
        | inr (m, found) ↦ rw (fits, found, found) (take_found m found)
      ]
    where
      fits : ltb node_size n ≡ false
      fits = ground arith

  -- `allocate` throws std::bad_alloc where a new node is needed and there is no memory for it.
  pub allocate-bad_alloc :
      n ≤ node_size
      → ((l r : ℕ) → a.left2right l ≡ some r → r < l + n)
      → new_array a.memory_node_list ≡ none
      → allocate node_size new_array a n ≡ thrown "std::bad_alloc"
  unfolding allocate grow_if_end create_memory_node
  allocate-bad_alloc le none_long out =
      elim (Option-cases (lower_bound (at_least n) a.free_memory_region)) [
        | inl end ↦ let fits : ltb node_size n ≡ false = ground arith in rw (fits, end, out)
        | inr (m, found) ↦
            let (c, long) = contains-lower_bound n a.free_memory_region m found in
            let (f, sum) = v.books.known m c in absurd (omega (arith, none_long m.left m.right f))
      ]
