-- ===== src/Operators/Laws.antt =====
-- The operators together.
use mod_cpp.Common.{◌≡◌, ◌↔◌, refl, true, false, Bool-cases, inl, inr, arith}
use mod_cpp.Common.Int.{pos, ◌+ℤ◌, int_laws, +ℤ_comm, +ℤ_assoc, +ℤ_parts, ==ℤ_iff}
use mod_cpp.Operators.{A, equal, increment, post_increment, assign, add_assign, add, sum}

equal_iff : (x y : A) → (equal x y ≡ true) ↔ (x ≡ y)
equal_iff x y = ground (arith, ==ℤ_iff x.a y.a, ==ℤ_iff x.b y.b, ==ℤ_iff x.c y.c)

-- After `x = y` the object equals `y` by `operator==`, also where the assignment returned early because
-- the two were equal.
pub equal-assign : (x y : A) → (assign x y ≡ y) × (equal (assign x y) y ≡ true)
unfolding assign
equal-assign x y = elim (Bool-cases (equal x y)) [
  | inl same ↦ rw same ((equal_iff x y).0 same, same)
  | inr other ↦ rw other (refl, (equal_iff y y).1 refl)
]

-- `x + y` is what `x += y` leaves in `x`; sums do not depend on the order, and `*` of a sum is the sum
-- of the `*`.
pub add_laws :
    (x y z : A)
    → (add x y ≡ add_assign x y)
      × (add x y ≡ add y x)
      × (add (add x y) z ≡ add x (add y z))
      × (sum (add x y) ≡ sum x +ℤ sum y)
unfolding add add_assign sum
add_laws x y z = (
  refl,
  λ i. record { a = +ℤ_comm x.a y.a i; b = +ℤ_comm x.b y.b i; c = +ℤ_comm x.c y.c i },
  λ i. record {
    a = +ℤ_assoc x.a y.a z.a i;
    b = +ℤ_assoc x.b y.b z.b i;
    c = +ℤ_assoc x.c y.c z.c i;
  },
  omega int_laws,
)

-- The postfix `x ++` returns what `++ x` makes of the object, and leaves the object as it was: where one
-- is added it is the wrong one of the two that is changed.
pub post_increment_swapped :
    (x : A)
    → ((post_increment x).0 ≡ increment x)
      × ((post_increment x).1 ≡ x)
      × (equal (increment x) x ≡ false)
unfolding post_increment increment
post_increment_swapped x = (refl, refl, ground (arith, +ℤ_parts x.a (pos 1)))
