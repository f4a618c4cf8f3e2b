-- ===== src/ObjectOrientation.antt =====
-- oo.cc: the classes `A`, `B` and `widget` with what their special members print, and the static member
-- of `example_for_static_member`. Objects have numbers in a store.
pub mod Laws
mod Tests
use mod_cpp.Common.{
  ℕ, zero, suc, ◌+◌, Bool, true, false, ltb, ◌&&◌, ◌==◌, if◌then◌else◌, update, Option, none, some,
  List, [], ◌∷◌, ◌++◌, length, get_elem?,
}
use mod_cpp.Common.Int.{ℤ, pos, negsuc}
use mod_cpp.Common.Outcome.{Outcome, ok, assert_failed, undefined, ◌>>=◌}
use Prim.Native.String.{String}

abbrev pub array_size : ℕ
array_size = 100100

-- The members of the objects: the array of an `A`, and a, b, c of a `B`.
pub record Store : Type 0 where
  pub arr : ℕ → ℕ → ℕ
  pub fields : ℕ → ℕ × ℕ × ℕ
  pub out : List String

abbrev pub print : Store → String → Store
print s text = record s { out = s.out ++ text ∷ [] }

-- The constructors of `A` for the object `i`; what the array then holds is given.
unfoldable pub construct : Store → ℕ → (ℕ → ℕ) → Store
construct s i old = print (record s { arr = update s.arr i old }) "default constructor"

abbrev pub copy_arr : Store → ℕ → ℕ → Store
copy_arr s i rhs = record s { arr = update s.arr i (s.arr rhs) }

unfoldable pub copy_construct : Store → ℕ → ℕ → Store
copy_construct s i rhs = copy_arr (print s "copy constructor") i rhs

unfoldable pub assign : Store → ℕ → ℕ → Store
assign s i rhs = copy_arr (print s "assignment operator") i rhs

-- A moved array of numbers is copied.
unfoldable pub move_construct : Store → ℕ → ℕ → Store
move_construct s i rhs = copy_arr (print s "move constructor") i rhs

unfoldable pub move_assign : Store → ℕ → ℕ → Store
move_assign s i rhs = copy_arr (print s "move operator") i rhs

-- `operator[]`: the index of the element
unfoldable pub subscript : ℤ → Outcome ℕ
subscript (pos i) = if ltb i array_size then ok i else assert_failed
subscript (negsuc i) = assert_failed

-- `widget().get_data()` of an object that has a name, and of one that has none
unfoldable pub get_data : Store → ℕ → ℕ → Store
unfolding copy_construct
get_data s i data_of = copy_construct s i data_of

unfoldable pub get_data_rvalue : Store → ℕ → ℕ → Store
unfolding move_construct
get_data_rvalue s i data_of = move_construct s i data_of

unfoldable pub reference_qualifier : Store → ℕ → ℕ → (ℕ → ℕ) → Store
unfolding construct get_data_rvalue
reference_qualifier s i temporary old = get_data_rvalue (construct s temporary old) i temporary

-- `B(a, b, c)` and its assignment, with the test for the same object
unfoldable pub construct_b : Store → ℕ → (ℕ → ℕ) → ℕ × ℕ × ℕ → Store
unfolding construct
construct_b s i old abc = let t = construct s i old in record t { fields = update t.fields i abc }

unfoldable pub assign_b : Store → ℕ → ℕ → Store
unfolding assign
assign_b s i rhs =
    let t = assign s i rhs in
    if i == rhs then s else record t { fields = update t.fields i (t.fields rhs) }

-- `vec.back()` and `vec.pop_back()`
abbrev pub back : List ℕ → Option ℕ
back [] = none
back (x ∷ []) = some x
back (x ∷ y ∷ xs) = back (y ∷ xs)

abbrev pub pop_back : List ℕ → List ℕ
pop_back [] = []
pop_back (x ∷ []) = []
pop_back (x ∷ y ∷ xs) = x ∷ pop_back (y ∷ xs)

-- `static_constructor`: `n` rounds from `i` on
abbrev pub fill_loop : ℕ → ℕ → List ℕ → List ℕ
fill_loop zero i v = v
fill_loop (suc n) i v = fill_loop n (i + 1) (v ++ i ∷ [])

abbrev pub static_constructor : List ℕ
static_constructor = fill_loop 10 0 []

-- The loop of `init_static_member`, by fuel, with the numbers printed so far
unfoldable pub drain_loop : ℕ → List ℕ → Option ℕ → List ℕ → Outcome (List ℕ)
drain_loop fuel v none out = ok out
drain_loop zero v (some x) out = undefined
drain_loop (suc fuel) v (some x) out =
    drain_loop fuel (pop_back v) (back (pop_back v)) (out ++ x ∷ [])

unfoldable pub init_static_member : ℕ → List ℕ → Outcome (List ℕ)
unfolding drain_loop
init_static_member fuel v = drain_loop fuel v (back v) []
