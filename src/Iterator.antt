-- ===== src/Iterator.antt =====
-- iterator.cc: `Array` with its iterators, and `ministl_sort`. An int of the array stands for its
-- distance from the least one, since the sort only compares. A read outside the array is undefined.
pub mod Scan
pub mod Partition
pub mod Sorted
pub mod Sort
pub mod Order
mod Tests
use mod_cpp.Common.{
  ℕ, zero, suc, ◌+◌, ◌-◌, ◌<◌, Bool, true, false, not, ◌&&◌, ltb, leb, ◌==◌, if◌then◌else◌, update,
}
use mod_cpp.Common.Int.{ℤ, pos, negsuc, pos_part, neg_part, sub_ℕ, ◌+ℤ◌, ◌==ℤ◌}
use mod_cpp.Common.Outcome.{Outcome, ok, undefined, ◌>>=◌}

-- `self` is the number of the array.
pub record Iter : Type 0 where
  pub idx : ℤ
  pub self : ℕ

abbrev pub minus_one : ℤ
minus_one = negsuc 0

-- `++it`, `it++` and `it--`: the value of the expression and the iterator after it
unfoldable pub pre_increment : Iter → Iter × Iter
pre_increment it = let next = record it { idx = it.idx +ℤ pos 1 } in (next, next)

unfoldable pub post_increment : Iter → Iter × Iter
post_increment it = (it, record it { idx = it.idx +ℤ pos 1 })

unfoldable pub post_decrement : Iter → Iter × Iter
post_decrement it = (it, record it { idx = it.idx +ℤ minus_one })

-- `*it`, the index of the element
unfoldable pub dereference : ℕ → ℤ → Outcome ℕ
dereference n (pos i) = if ltb i n then ok i else undefined
dereference n (negsuc i) = undefined

unfoldable pub equal : Iter → Iter → Bool
equal a b = (a.idx ==ℤ b.idx) && (a.self == b.self)

unfoldable pub not_equal : Iter → Iter → Bool
not_equal a b = if not (a.idx ==ℤ b.idx) then true else not (a.self == b.self)

abbrev pub opposite : ℤ → ℤ
opposite z = sub_ℕ (neg_part z) (pos_part z)

unfoldable pub minus : Iter → ℤ → Iter
minus it delta = record it { idx = it.idx +ℤ opposite delta }

unfoldable pub plus : Iter → ℤ → Iter
plus it delta = record it { idx = it.idx +ℤ delta }

abbrev pub lt_int : ℤ → ℤ → Bool
lt_int a b = ltb (pos_part a + neg_part b) (pos_part b + neg_part a)

unfoldable pub lt : Iter → Iter → Bool
lt a b = lt_int a.idx b.idx

-- `operator<=`, as it is written
unfoldable pub le : Iter → Iter → Bool
le a b = lt_int a.idx b.idx

unfoldable pub ge : Iter → Iter → Bool
ge a b = not (lt_int a.idx b.idx)

abbrev pub begin : ℕ → Iter
begin self = record { idx = pos 0; self = self }

abbrev pub end : ℕ → ℕ → Iter
end n self = record { idx = pos n; self = self }

abbrev pub swap : (ℕ → ℕ) → ℕ → ℕ → ℕ → ℕ
swap d i j = update (update d i (d j)) j (d i)

-- `do left ++ ; while (*left < pivot);` from the index `i` on, with `k` indices left in the array.
unfoldable pub scan_up : (ℕ → ℕ) → ℕ → ℕ → ℕ → Outcome ℕ
scan_up d pivot zero i = undefined
scan_up d pivot (suc k) i =
    let rest = scan_up d pivot k (i + 1) in if ltb (d i) pivot then rest else ok i

-- `do right -- ; while (*right > pivot);` where `right` was `i`.
unfoldable pub scan_down : (ℕ → ℕ) → ℕ → ℕ → Outcome ℕ
scan_down d pivot zero = undefined
scan_down d pivot (suc i) = let rest = scan_down d pivot i in if ltb pivot (d i) then rest else ok i

module _ (n : ℕ) where
  -- The loop `while (left < right)`, by fuel: each round moves `left` on. `next` is `left + 1`, since
  -- `left` starts one before the first element. What comes back is `right` and the array.
  unfoldable pub partition : ℕ → ℕ → ℕ → ℕ → (ℕ → ℕ) → Outcome (ℕ × (ℕ → ℕ))
  unfolding scan_up scan_down
  partition zero pivot next right d = undefined
  partition (suc fuel) pivot next right d =
      let round = (do
        i ← scan_up d pivot (n - next) next
        j ← scan_down d pivot right
        partition fuel pivot (i + 1) j (if ltb i j then swap d i j else d)) in
      if leb next right then round else ok (right, d)

  -- `ministl_sort` on the elements from `first` to before `last`, by fuel: the parts are shorter. A
  -- sort that does not come to an end runs out of fuel, which counts as undefined.
  unfoldable pub ministl_sort : ℕ → ℕ → ℕ → (ℕ → ℕ) → Outcome (ℕ → ℕ)
  unfolding partition
  ministl_sort zero first last d = undefined
  ministl_sort (suc fuel) first last d =
      let parts = (do
        (right, d1) ← partition (n + 2) (d first) first last d
        d2 ← ministl_sort fuel first (right + 1) d1
        ministl_sort fuel (right + 1) last d2) in
      if leb last (first + 1) then ok d else parts

-- The first loop of `iterator_rountine`, by fuel: `*it = i; i -- ;`
unfoldable pub fill_loop : ℕ → ℕ → Iter → ℕ → (ℕ → ℕ) → Outcome (ℕ → ℕ)
unfolding dereference not_equal post_increment ◌+ℤ◌
fill_loop n zero it i d = undefined
fill_loop n (suc fuel) it i d =
    let rest = (do
      p ← dereference n it.idx
      fill_loop n fuel (post_increment it).1 (i - 1) (update d p i)) in
    if not_equal it (end n it.self) then rest else ok d

unfoldable pub iterator_rountine : (ℕ → ℕ) → Outcome (ℕ → ℕ)
unfolding fill_loop ministl_sort
iterator_rountine d = do arr ← fill_loop 10 11 (begin 0) 10 d; ministl_sort 10 11 0 10 arr
