-- ===== src/MinHeap.antt =====
-- heap.cc: `MinHeap`, a binary heap in an array whose first index is 1. An int stands for its distance
-- from the least one, since the heap only compares; where the array was not written it holds anything.
pub mod Order
pub mod Items
pub mod Methods
mod Tests
use mod_cpp.Common.{
  ℕ, zero, suc, ◌+◌, ◌-◌, ◌*◌, ◌/◌, Bool, true, false, ◌&&◌, ltb, leb, ◌==◌, if◌then◌else◌, update,
  List, [], ◌∷◌,
}
use mod_cpp.Common.Outcome.{Outcome, ok, thrown, undefined, ◌>>=◌, ◌>>◌, throw_if}

pub record Heap : Type 0 where
  pub data_at : ℕ → ℕ
  pub last : ℕ

-- `std::swap(data[i], data[j])`
abbrev pub swap : (ℕ → ℕ) → ℕ → ℕ → ℕ → ℕ
swap d i j = update (update d i (d j)) j (d i)

-- `i` in place of `best` where it is a node with a smaller value
abbrev pub better : (ℕ → ℕ) → ℕ → ℕ → ℕ → ℕ
better d last best i = if leb i last && ltb (d i) (d best) then i else best

-- `min_val_pos`
abbrev pub min_val_pos : (ℕ → ℕ) → ℕ → ℕ → ℕ
min_val_pos d last root = better d last (better d last root (root * 2)) (root * 2 + 1)

-- `down`, by fuel: each call goes to a greater index, and there is nothing to do behind `last`. A call
-- that does not come to an end runs out of fuel, which counts as undefined.
unfoldable pub down_from : ℕ → ℕ → ℕ → (ℕ → ℕ) → Outcome (ℕ → ℕ)
down_from zero last root d = undefined
down_from (suc fuel) last root d =
    let rest =
      down_from fuel last (min_val_pos d last root) (swap d root (min_val_pos d last root)) in
    if min_val_pos d last root == root then ok d else rest

unfoldable pub down : ℕ → ℕ → (ℕ → ℕ) → Outcome (ℕ → ℕ)
unfolding down_from
down last root d = down_from (suc last) last root d

-- `up`, by fuel: each call goes to a smaller index.
unfoldable pub up_from : ℕ → ℕ → (ℕ → ℕ) → Outcome (ℕ → ℕ)
up_from zero root d = undefined
up_from (suc fuel) root d =
    let rest = up_from fuel (root / 2) (swap d (root / 2) root) in
    if root == 1 then ok d else if ltb (d root) (d (root / 2)) then rest else ok d

unfoldable pub up : ℕ → (ℕ → ℕ) → Outcome (ℕ → ℕ)
unfolding up_from
up root d = up_from root root d

-- The loop of `build_heap` for `i` down to 1.
unfoldable pub build_loop : ℕ → ℕ → (ℕ → ℕ) → Outcome (ℕ → ℕ)
unfolding down
build_loop zero last d = ok d
build_loop (suc i) last d = down last (suc i) d >>= build_loop i last

unfoldable pub build_heap : Heap → Outcome Heap
unfolding build_loop
build_heap h = do d ← build_loop (h.last / 2) h.last h.data_at; ok (record h { data_at = d })

-- `MinHeap()`, with what the memory held
abbrev pub new : (ℕ → ℕ) → Heap
new d = record { data_at = d; last = 0 }

abbrev pub empty : Heap → Bool
empty h = h.last == 0

unfoldable pub top : Heap → Outcome ℕ
top h = do throw_if (empty h) "heap is empty"; ok (h.data_at 1)

unfoldable pub pop : Heap → Outcome Heap
unfolding down
pop h = do
  throw_if (empty h) "heap is empty"
  d ← down (h.last - 1) 1 (swap h.data_at 1 h.last)
  ok (record { data_at = d; last = h.last - 1 })

unfoldable pub size : Heap → ℕ
size h = h.last

module _ (max_heap_size : ℕ) where
  abbrev pub full : Heap → Bool
  full h = leb (max_heap_size - 1) h.last

  unfoldable pub push : Heap → ℕ → Outcome Heap
  unfolding up
  push h val = do
    throw_if (full h) "heap is full"
    d ← up (h.last + 1) (update h.data_at (h.last + 1) val)
    ok (record { data_at = d; last = h.last + 1 })

-- `nums[i]`
unfoldable pub nums_at : List ℕ → ℕ → Outcome ℕ
nums_at [] i = undefined
nums_at (a ∷ l) zero = ok a
nums_at (a ∷ l) (suc i) = nums_at l i

-- `data[i] = nums[i]` for `k` indices from `i` on
unfoldable pub fill : ℕ → ℕ → List ℕ → (ℕ → ℕ) → Outcome (ℕ → ℕ)
unfolding nums_at
fill zero i nums d = ok d
fill (suc k) i nums d = do a ← nums_at nums i; fill k (i + 1) nums (update d i a)

unfoldable pub length : List ℕ → ℕ
length [] = 0
length (a ∷ l) = suc (length l)

-- `MinHeap(const std::vector<T>& nums)`
unfoldable pub from_vector : ℕ → List ℕ → (ℕ → ℕ) → Outcome Heap
unfolding fill build_heap length
from_vector max_heap_size nums d = do
  throw_if (ltb max_heap_size (length nums)) "nums capacity overflow"
  filled ← fill (length nums) 1 nums d
  build_heap (record { data_at = filled; last = length nums })
