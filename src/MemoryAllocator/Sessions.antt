-- ===== src/MemoryAllocator/Sessions.antt =====
-- Any sequence of calls on an allocator.
use mod_cpp.Common.{
  ℕ, ◌+◌, ◌≤◌, ◌<◌, ◌≡◌, refl, sym, ◌∙◌, ap, true, ◌⊎◌, inl, inr, ◌≢◌, Option, none, some,
  Option-cases, List, [], dec_lt, arith,
}
use mod_cpp.Common.Outcome.{Outcome, ok, thrown, ◌>>=◌, Returns, Returns-bind, Returns-map}
use mod_cpp.MemoryAllocator.{MemoryAllocator, new, create_memory_node, allocate, release}
use mod_cpp.MemoryAllocator.Regions.{contains}
use mod_cpp.MemoryAllocator.Cover.{owned, IsFree, IsUsed}
use mod_cpp.MemoryAllocator.Invariant.{IsValid}
use mod_cpp.MemoryAllocator.Grow.{IsNewArray, create-ok, create-IsValid}
use mod_cpp.MemoryAllocator.Allocate.{IsAvailable, allocate_correct, allocate-bad_alloc}
use mod_cpp.MemoryAllocator.Release.{release_correct, release-unknown}

-- A successful run satisfies what every run does.
Returns-of_ok {ℓ} :
    {A : Type ℓ} (P : A → Type 0) (m : Outcome A) {a : A} → m ≡ ok a → Returns P m → P a
Returns-of_ok P m e h = rw e at h

abbrev empty : MemoryAllocator
empty = record {
  memory_node_list = [];
  free_memory_region = [];
  left2right = λ _. none;
  right2left = λ _. none;
  addr2len = λ _. none;
}

module _ {node_size : ℕ} {new_array : List ℕ → Option ℕ} (law : IsNewArray node_size new_array)
    (pos : 0 < node_size) where
  empty-IsValid : IsValid node_size empty
  unfolding contains
  empty-IsValid = record {
    books = record {
      right_of = λ l r e. cc;
      left_of = λ l r e. cc;
      listed = λ l r e. cc;
      known = λ m c. cc;
      positive = λ l r e. cc;
      fits = λ l r e. cc;
      ordered = tt;
    };
    apart = record {
      whole = omega arith;
      free_free = λ l r l' r' e. cc;
      used_used = λ l r l' r' e. cc;
      used_positive = λ l r e. cc;
      free_used = λ l r l' r' e. cc;
      free_held = λ l r e. cc;
      used_held = λ l r e. cc;
    };
    cover = record {
      placed = λ q o. cc;
      free_owned = λ l r q e. cc;
      used_owned = λ l r q e. cc;
      held_owned = λ q h k. absurd (omega arith);
    };
    small = omega arith;
    used_small = λ l n e. cc;
  }

  new_lem : new node_size new_array ≡ create_memory_node node_size new_array empty
  unfolding new
  new_lem = refl

  new-bad_alloc : new_array [] ≡ none → new node_size new_array ≡ thrown "std::bad_alloc"
  unfolding new
  new-bad_alloc out = rw out

  -- The constructor makes a valid allocator, or throws std::bad_alloc.
  new-IsValid : {a : MemoryAllocator} → new node_size new_array ≡ ok a → IsValid node_size a
  new-IsValid {a} e = elim (Option-cases (new_array [])) [
    | inl out ↦ absurd (cc (e, new-bad_alloc out))
    | inr (node, given) ↦
        Returns-of_ok (IsValid node_size) (create_memory_node node_size new_array empty)
          (sym new_lem ∙ e)
          (rw (create-ok law empty node given empty-IsValid pos)
            (create-IsValid law empty node given empty-IsValid pos))
  ]

-- A block at `p` would reach into the block allocated there.
none_before :
    {node_size : ℕ} (a : MemoryAllocator) (p n : ℕ)
    → IsValid node_size a
    → 0 < n
    → ((k : ℕ) → a.addr2len p ≡ some k → p < p + n → p + k ≤ p)
    → a.addr2len p ≡ none
none_before a p n v pos unused = elim (Option-cases (a.addr2len p)) [
  | inl e ↦ e
  | inr (k, e) ↦ absurd (omega (arith, v.apart.used_positive p k e, unused k e (omega arith)))
]

-- The states that calls reach: `allocate` of at least one byte, and `release` of anything. A call of
-- `allocate` for no byte is left out: see `allocate-zero`.
pub data Reach (node_size : ℕ) (new_array : List ℕ → Option ℕ) : MemoryAllocator → Type 0 where
  start : {a : MemoryAllocator} → new node_size new_array ≡ ok a → Reach node_size new_array a
  allocated :
      {a b : MemoryAllocator} (n p : ℕ)
      → Reach node_size new_array a
      → 0 < n
      → allocate node_size new_array a n ≡ ok (p, b)
      → Reach node_size new_array b
  released :
      {a b : MemoryAllocator} (p : ℕ)
      → Reach node_size new_array a
      → release a p ≡ ok b
      → Reach node_size new_array b

-- `allocate` refuses more than `NodeSize` bytes with an exception.
pub allocate-too_large :
    (node_size : ℕ) (new_array : List ℕ → Option ℕ) (a : MemoryAllocator) (n : ℕ)
    → node_size < n
    → allocate node_size new_array a n ≡ thrown "can't allocate memory larger than NodeSize"
unfolding allocate
allocate-too_large node_size new_array a n h = ground arith

module _ {node_size : ℕ} {new_array : List ℕ → Option ℕ} (law : IsNewArray node_size new_array)
    (pos : 0 < node_size) where
  -- `allocate` has returned, so that there was memory for a new node if one was needed.
  available :
      (a : MemoryAllocator) (n : ℕ) (v : IsValid node_size a) (p : 0 < n)
      → n ≤ node_size
      → {r : ℕ × MemoryAllocator} → allocate node_size new_array a n ≡ ok r
      → IsAvailable law a n v p
  available a n v p fits e short = elim (Option-cases (new_array a.memory_node_list)) [
    | inl out ↦ absurd (cc (e, allocate-bad_alloc law a n v p fits short out))
    | inr given ↦ given
  ]

  pub Reach-IsValid : {a : MemoryAllocator} → Reach node_size new_array a → IsValid node_size a
  Reach-IsValid (start e) = new-IsValid law pos e
  Reach-IsValid (allocated {a} n q r p e) = elim (dec_lt node_size n) [
    | yes big ↦ ground (arith, allocate-too_large node_size new_array a n big)
    | no fits ↦
        let v = Reach-IsValid r in
        (Returns-of_ok _ (allocate node_size new_array a n) e
          (allocate_correct law a n v p (omega arith) (available a n v p (omega arith) e))).valid
  ]
  Reach-IsValid (released {a} p r e) = elim (Option-cases (a.addr2len p)) [
    | inl absent ↦ ground (arith, release-unknown a p absent)
    | inr (n, there) ↦
        (Returns-of_ok _ (release a p) e (release_correct a p n (Reach-IsValid r) there)).valid
  ]

  -- Where new nodes are apart from those in use and `NodeSize` is not 0: in every state that is reached
  -- from the constructor by calls of `allocate` for at least one byte and of `release`, each address of a
  -- node is either in a free region or in a block, never in both, and no other address is in either.
  pub every_byte_once :
      (a : MemoryAllocator) (q : ℕ)
      → Reach node_size new_array a
      → ((owned node_size a.memory_node_list q ≡ true) → IsFree a q ⊎ IsUsed a q)
        × (IsFree a q ⊎ IsUsed a q → owned node_size a.memory_node_list q ≡ true)
        × ¬ (IsFree a q × IsUsed a q)
  every_byte_once a q reach = (
    λ o. elim (v.cover.placed q o) [
      | inl f ↦ inl f
      | inr (inl u) ↦ inr u
      | inr (inr h) ↦ absurd (omega arith)
    ],
    elim [
      | inl (l, r, e, h, k) ↦ v.cover.free_owned l r q e h k
      | inr (l, n, e, h, k) ↦ v.cover.used_owned l n q e h k
    ],
    λ ((l, r, e, h, k), (l', n, e', h', k')). omega (arith, v.apart.free_used l r l' n e e'),
  )
    where
      v : IsValid node_size a
      v = Reach-IsValid reach

  -- Where new nodes are apart from those in use and `NodeSize` is not 0: in every state that is reached
  -- from the constructor by calls of `allocate` for at least one byte and of `release`, two blocks that
  -- start at different addresses do not overlap.
  pub blocks_apart :
      (a : MemoryAllocator) (p n p' n' : ℕ)
      → Reach node_size new_array a
      → a.addr2len p ≡ some n
      → a.addr2len p' ≡ some n'
      → p ≢ p'
      → (p + n ≤ p') ⊎ (p' + n' ≤ p)
  blocks_apart a p n p' n' reach e e' ne =
      let v = Reach-IsValid reach in
      ground (arith, v.apart.used_used p n p' n', v.apart.used_used p' n' p n)

  -- Where new nodes are apart from those in use and `NodeSize` is not 0: in a state that is reached from
  -- the constructor by calls of `allocate` for at least one byte and of `release`, and with memory for a
  -- node if one is needed, allocating 1 to `NodeSize` bytes and giving them back at once succeeds, leaves
  -- the blocks in use as they were, and the state valid.
  pub release-allocate :
      (a : MemoryAllocator) (n : ℕ)
      → Reach node_size new_array a
      → 0 < n
      → n ≤ node_size
      → (((l r : ℕ) → a.left2right l ≡ some r → r < l + n)
          → (node : ℕ) × (new_array a.memory_node_list ≡ some node))
      → Returns
          (λ c. ((q : ℕ) → c.addr2len q ≡ a.addr2len q) × IsValid node_size c)
          (allocate node_size new_array a n >>= λ (p, b). release b p)
  release-allocate a n reach some_bytes fits room =
      let v = Reach-IsValid reach in
      Returns-bind _ _ (allocate node_size new_array a n) _
        (allocate_correct law a n v some_bytes fits room)
        λ (p, b) s.
          let there : b.addr2len p ≡ some n = ground (arith, s.blocks) in
          Returns-map _ _ (release b p) (release_correct b p n s.valid there) λ c t. (
            λ q. ground (
              arith,
              ap (λ (f : ℕ → Option ℕ). f q) t.blocks,
              ap (λ (f : ℕ → Option ℕ). f q) s.blocks,
              none_before a p n v some_bytes (s.unused p),
            ),
            t.valid,
          )
