-- ===== src/Operators.antt =====
-- operator.cc: the class `A` of three ints with overloaded operators. Arithmetic on int is taken not
-- to overflow. `obj`, which no operator changes, and `operator->`, which returns its address, are left
-- out.
pub mod Laws
mod Tests
use mod_cpp.Common.{Bool, ◌&&◌, if◌then◌else◌}
use mod_cpp.Common.Int.{ℤ, pos, ◌+ℤ◌, ◌*ℤ◌, ◌==ℤ◌}

pub record A : Type 0 where
  pub a : ℤ
  pub b : ℤ
  pub c : ℤ

-- `operator==`
abbrev pub equal : A → A → Bool
equal x y = (x.a ==ℤ y.a) && (x.b ==ℤ y.b) && (x.c ==ℤ y.c)

-- `++ x`: the object, which is also the result
unfoldable pub increment : A → A
increment x = record x { a = x.a +ℤ pos 1 }

-- `x ++`: the result, and the object
unfoldable pub post_increment : A → A × A
post_increment x = (record x { a = x.a +ℤ pos 1 }, x)

-- `x = y`: the object
unfoldable pub assign : A → A → A
assign x y = if equal x y then x else record { a = y.a; b = y.b; c = y.c }

-- `x += y`: the object
unfoldable pub add_assign : A → A → A
add_assign x y = record { a = x.a +ℤ y.a; b = x.b +ℤ y.b; c = x.c +ℤ y.c }

-- `x + y`
unfoldable pub add : A → A → A
add x y = let res = x in record { a = res.a +ℤ y.a; b = res.b +ℤ y.b; c = res.c +ℤ y.c }

-- `x * y`
unfoldable pub mul : A → A → A
mul x y = let res = x in record { a = res.a *ℤ y.a; b = res.b *ℤ y.b; c = res.c *ℤ y.c }

-- `*x`
unfoldable pub sum : A → ℤ
sum x = x.a +ℤ x.b +ℤ x.c

-- What `operator_rountine` prints: `*(a + b)`, and `a * b`.
unfoldable pub operator_rountine : ℤ × A
unfolding add mul sum
operator_rountine =
    let x : A = record { a = pos 1; b = pos 2; c = pos 3 } in
    let y : A = record { a = pos 4; b = pos 5; c = pos 6 } in (sum (add x y), mul x y)
