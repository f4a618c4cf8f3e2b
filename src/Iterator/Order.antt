-- ===== src/Iterator/Order.antt =====
-- The operators of the iterators.
use mod_cpp.Common.{ℕ, ◌+◌, ◌≡◌, ◌↔◌, refl, true, false, not, leb, arith}
use mod_cpp.Common.Int.{ℤ, pos, ◌+ℤ◌, ==ℤ_iff}
use mod_cpp.Iterator.{
  Iter, pre_increment, post_increment, post_decrement, equal, not_equal, minus, plus, lt, le, ge,
  opposite, minus_one,
}

opposite_sum : (a z : ℤ) → a +ℤ opposite z +ℤ z ≡ a
unfolding ◌+ℤ◌
opposite_sum a z = ground arith

one_back : (a : ℤ) → a +ℤ minus_one +ℤ pos 1 ≡ a
unfolding ◌+ℤ◌
one_back a = ground arith

-- Steps undo each other, the postfix operators return the iterator as it was, and `!=` is the negation of
-- `==`, which holds exactly of iterators at the same index of the same array.
pub iterator_laws :
    (a b : Iter) (k : ℤ)
    → (plus (minus a k) k ≡ a)
      × ((post_increment (post_decrement a).1).1 ≡ a)
      × ((post_increment a).0 ≡ a)
      × ((post_increment a).1 ≡ (pre_increment a).0)
      × (not_equal a b ≡ not (equal a b))
      × ((equal a b ≡ true) ↔ (a ≡ b))
unfolding plus minus post_increment post_decrement pre_increment not_equal equal
iterator_laws a b k = (
  λ i. record { idx = opposite_sum a.idx k i; self = a.self },
  λ i. record { idx = one_back a.idx i; self = a.self },
  refl,
  refl,
  ground arith,
  ground (arith, ==ℤ_iff a.idx b.idx),
)

-- `<=` is `<`: it fails for an iterator and itself, although `==` and `>=` hold; `>=` is right.
pub le_strict :
    (a b : Iter)
    → (le a b ≡ lt a b)
      × (le a a ≡ false)
      × (equal a a ≡ true)
      × (ge a a ≡ true)
      × (ge a b ≡ not (lt a b))
unfolding le lt equal ge
le_strict a b = (refl, ground arith, ground arith, ground arith, refl)

-- The test at the top of `ministl_sort`
pub short_test :
    (first last self : ℕ)
    → ge
        (record { idx = pos first; self = self })
        (minus (record { idx = pos last; self = self }) (pos 1))
      ≡ leb last (first + 1)
unfolding ge minus ◌+ℤ◌
short_test first last self = ground arith
