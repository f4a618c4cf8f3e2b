-- ===== src/MinHeap/Methods.antt =====
-- The methods of `MinHeap`.
use mod_cpp.Common.{
  ℕ, zero, suc, ◌+◌, ◌-◌, ◌/◌, ◌≤◌, ◌<◌, ◌≡◌, refl, ◌⊎◌, inl, inr, false, ltb, leb, ◌==◌, update,
  List, [], ◌∷◌, arith,
}
use mod_cpp.Common.Outcome.{ok, undefined, ◌>>=◌, Returns, Returns-bind, Returns-both}
use mod_cpp.MinHeap.{
  Heap, swap, down_from, down, up_from, up, build_loop, build_heap, top, pop, push, size, nums_at,
  fill, length, from_vector,
}
use mod_cpp.MinHeap.Order.{
  IsOrdered, down_from-IsOrdered, up_from-IsOrdered, build_loop-IsOrdered, root_least,
}
use mod_cpp.MinHeap.Items.{
  one_if, times, times_last, times-update_above, times-update, times-swap, SameTimes,
  down_from-SameTimes, up_from-SameTimes, build_loop-SameTimes,
}

unfoldable pub IsHeap : Heap → Type 0
IsHeap h = IsOrdered 1 h.last h.data_at

-- How often the heap holds `v`.
unfoldable pub items : Heap → ℕ → ℕ
items h v = times h.last h.data_at v

-- `build_heap` returns, puts any array in heap order and keeps how often each value occurs.
pub build_heap_correct :
    (h : Heap) → Returns (λ t. IsHeap t × ((v : ℕ) → items t v ≡ items h v)) (build_heap h)
unfolding IsHeap items build_heap IsOrdered
build_heap_correct h =
    Returns-bind (λ d. IsOrdered 1 h.last d × SameTimes h.last h.data_at d) _
      (build_loop (h.last / 2) h.last h.data_at) _
      (Returns-both _ _ (build_loop (h.last / 2) h.last h.data_at)
        (build_loop-IsOrdered (h.last / 2) h.last h.data_at (λ i b e. absurd (omega arith)))
        (build_loop-SameTimes (h.last / 2) h.last h.data_at))
      (λ d w. w)

-- On a heap in order that is not empty, `top` returns an item that no item is less than.
pub top_correct :
    (h : Heap)
    → IsHeap h
    → 0 < h.last
    → Returns (λ a. (0 < items h a) × ((i : ℕ) → 0 < i → i ≤ h.last → a ≤ h.data_at i)) (top h)
unfolding IsHeap items top
top_correct h v b = rw some_item (
  ground (arith, times-update h.last h.data_at 1 (h.data_at 1 + 1) (h.data_at 1)),
  λ i c e. root_least i h.last h.data_at i (omega arith) v c e,
)
  where
    some_item : (h.last == 0) ≡ false
    some_item = ground arith

-- On a heap in order with room for one more, `push` returns, keeps the order, and adds one occurrence of
-- the value and no other.
pub push_correct :
    (max_heap_size : ℕ) (h : Heap) (val : ℕ)
    → IsHeap h
    → h.last + 1 < max_heap_size
    → Returns
        (λ t.
          IsHeap t × (size t ≡ size h + 1) × ((v : ℕ) → items t v ≡ items h v + one_if (val == v)))
        (push max_heap_size h val)
unfolding IsHeap items push up size IsOrdered
push_correct max_heap_size h val v b = rw not_full (
    Returns-bind (λ d. IsOrdered 1 (h.last + 1) d × SameTimes (h.last + 1) added d) _
      (up_from (h.last + 1) (h.last + 1) added) _
      (Returns-both _ _ (up_from (h.last + 1) (h.last + 1) added)
        (up_from-IsOrdered (h.last + 1) (h.last + 1) (h.last + 1) added (omega arith) (omega arith)
          (omega arith)
          (record {
            others = λ i c e n. ground (arith, v i);
            across = λ i c e n. absurd (omega arith);
          }))
        (up_from-SameTimes (h.last + 1) (h.last + 1) (h.last + 1) added (omega arith) (omega arith)
          (omega arith)))
      (λ d (o, same). (
        o,
        refl,
        λ w. ground (
          arith,
          same w,
          times_last (h.last + 1) added w,
          times-update_above h.last h.data_at (h.last + 1) val w,
        ),
      )))
  where
    added : ℕ → ℕ
    added = update h.data_at (h.last + 1) val

    not_full : leb (max_heap_size - 1) h.last ≡ false
    not_full = ground arith

-- On a heap in order that is not empty, `top` returns an item that no item is less than, and `pop`
-- returns after it, keeps the order, and takes away one occurrence of this item and no other.
pub pop_correct :
    (h : Heap)
    → IsHeap h
    → 0 < h.last
    → Returns
        (λ (a, t).
          ((i : ℕ) → 0 < i → i ≤ h.last → a ≤ h.data_at i)
          × IsHeap t
          × (size t + 1 ≡ size h)
          × ((v : ℕ) → items t v + one_if (a == v) ≡ items h v))
        (do a ← top h; t ← pop h; ok (a, t))
unfolding IsHeap items top pop down size IsOrdered
pop_correct h v b = rw some_item (
    Returns-bind
      (λ t.
        IsHeap t
        × (size t + 1 ≡ size h)
        × ((w : ℕ) → items t w + one_if (h.data_at 1 == w) ≡ items h w))
      _
      (do
        d ← down_from (suc (h.last - 1)) (h.last - 1) 1 swapped
        ok (record { data_at = d; last = h.last - 1 }))
      _ popped
      (λ t w. (λ i c e. root_least i h.last h.data_at i (omega arith) v c e, w.0, w.1, w.2)))
  where
    swapped : ℕ → ℕ
    swapped = swap h.data_at 1 h.last

    some_item : (h.last == 0) ≡ false
    some_item = ground arith

    popped :
        Returns
          (λ t.
            IsHeap t
            × (size t + 1 ≡ size h)
            × ((w : ℕ) → items t w + one_if (h.data_at 1 == w) ≡ items h w))
          (do
            d ← down_from (suc (h.last - 1)) (h.last - 1) 1 swapped
            ok (record { data_at = d; last = h.last - 1 }))
    popped =
        Returns-bind (λ d. IsOrdered 1 (h.last - 1) d × SameTimes (h.last - 1) swapped d) _
          (down_from (suc (h.last - 1)) (h.last - 1) 1 swapped) _
          (Returns-both _ _ (down_from (suc (h.last - 1)) (h.last - 1) 1 swapped)
            (down_from-IsOrdered 1 (h.last - 1) (omega arith) (suc (h.last - 1)) 1 swapped
              (omega arith) (omega arith) (omega arith)
              (record {
                others = λ i c e n. ground (arith, v i);
                across = λ i c e n. absurd (omega arith);
              }))
            (down_from-SameTimes (suc (h.last - 1)) (h.last - 1) 1 swapped (omega arith)
              (omega arith) (omega arith)))
          (λ d (o, same). (
            o,
            omega arith,
            λ w. ground (
              arith,
              same w,
              times_last h.last swapped w,
              times-swap h.last h.data_at 1 h.last w,
            ),
          ))

nums_at-cases :
    (nums : List ℕ) (i : ℕ)
    → ((a : ℕ) × (nums_at nums i ≡ ok a) × (i < length nums))
      ⊎ ((nums_at nums i ≡ undefined) × (length nums ≤ i))
unfolding nums_at length
nums_at-cases [] i = inr (refl, omega arith)
nums_at-cases (a ∷ l) zero = inl (a, refl, omega arith)
nums_at-cases (a ∷ l) (suc i) = elim (nums_at-cases l i) [
  | inl (b, e, h) ↦ inl (b, e, omega arith)
  | inr (e, h) ↦ inr (e, omega arith)
]

fill-undefined :
    (k i : ℕ) (nums : List ℕ) (d : ℕ → ℕ)
    → 0 < k
    → i + k ≡ suc (length nums)
    → fill k i nums d ≡ undefined
unfolding fill
fill-undefined zero i nums d b h = absurd (omega arith)
fill-undefined (suc k) i nums d b h = elim (nums_at-cases nums i) [
  | inr (e, g) ↦ rw e refl
  | inl (a, e, g) ↦ rw e (fill-undefined k (i + 1) nums (update d i a) (omega arith) (omega arith))
]

-- The constructor from an array that is not empty and not over the capacity is undefined: it reads the
-- elements at 1 to n of an array of n.
pub from_vector_undefined :
    (max_heap_size : ℕ) (nums : List ℕ) (d : ℕ → ℕ)
    → 0 < length nums
    → length nums ≤ max_heap_size
    → from_vector max_heap_size nums d ≡ undefined
unfolding from_vector
from_vector_undefined max_heap_size nums d b h =
    rw not_over (rw (fill-undefined (length nums) 1 nums d b (omega arith)) refl)
  where
    not_over : ltb max_heap_size (length nums) ≡ false
    not_over = ground arith
