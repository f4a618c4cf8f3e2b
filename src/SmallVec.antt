-- ===== src/SmallVec.antt =====
-- vec.cc: `vec`, an array that keeps its first elements on the stack and moves to the heap when it grows
-- over `N`. An index is not negative. The values that a new array holds are a parameter.
pub mod Laws
mod Tests
use mod_cpp.Common.{
  ℕ, zero, suc, ◌+◌, ◌*◌, Bool, true, false, ltb, leb, ◌==◌, if◌then◌else◌, update, Option, none,
  some,
}
use mod_cpp.Common.Outcome.{Outcome, ok, undefined, ◌>>=◌, or_undefined}

-- `heap_vec` is `none` for a null pointer, and an array of `vec_capacity` elements otherwise.
pub record Vec (A : Type 0) : Type 0 where
  pub stack_vec : ℕ → A
  pub heap_vec : Option (ℕ → A)
  pub vec_size : ℕ
  pub vec_capacity : ℕ

-- What an argument of `emplace_back` refers to: an object that is no element, with its value, an element
-- of the array on the stack or of the heap array, or an element that is gone.
pub data Ref (A : Type 0) : Type 0 where
  outside : A → Ref A
  in_stack in_heap : ℕ → Ref A
  dangling : Ref A

module _ {A : Type 0} (N : ℕ) (new_array : ℕ → ℕ → A) where
  abbrev pub new : (ℕ → A) → Vec A
  new d = record { stack_vec = d; heap_vec = none; vec_size = 0; vec_capacity = N }

  -- `for (int i = 0; i < vec_size; i ++ ) heap_vec[i] = src[i];`
  unfoldable pub copy_loop : ℕ → (ℕ → A) → (ℕ → A) → ℕ → A
  copy_loop zero src dst = dst
  copy_loop (suc i) src dst = update (copy_loop i src dst) i (src i)

  unfoldable pub grow : Vec A → Outcome (Vec A)
  unfolding copy_loop
  grow v = do
    let vec_capacity = v.vec_capacity * 2
    src ← if v.vec_size == N then ok v.stack_vec else or_undefined v.heap_vec
    ok (record v {
      heap_vec = some (copy_loop v.vec_size src (new_array vec_capacity));
      vec_capacity = vec_capacity;
    })

  -- What a reference refers to is read when it is used.
  unfoldable pub load : Vec A → Ref A → Outcome A
  load v (outside a) = ok a
  load v (in_stack i) = if ltb i N then ok (v.stack_vec i) else undefined
  load v (in_heap i) = do
    h ← or_undefined v.heap_vec
    if ltb i v.vec_capacity then ok (h i) else undefined
  load v dangling = undefined

  -- `operator[]`
  abbrev pub subscript : Vec A → ℕ → Ref A
  subscript v idx = if leb v.vec_size N then in_stack idx else in_heap idx

  unfoldable pub at : Vec A → ℕ → Outcome A
  unfolding load
  at v idx = load v (subscript v idx)

  -- `delete[] old_heap_vec` ends the elements of the old array.
  unfoldable pub after_grow : Ref A → Ref A
  after_grow (outside a) = outside a
  after_grow (in_stack i) = in_stack i
  after_grow (in_heap i) = dangling
  after_grow dangling = dangling

  -- The element is constructed in the heap array, where there is one and it has room.
  unfoldable pub construct_on_heap : Vec A → Ref A → Outcome (Vec A)
  unfolding load
  construct_on_heap v args = do
    a ← load v args
    h ← or_undefined v.heap_vec
    if ltb v.vec_size v.vec_capacity
        then ok (record v { heap_vec = some (update h v.vec_size a); vec_size = v.vec_size + 1 })
        else undefined

  -- The arguments are forwarded as references and read by the constructor of the element, behind `grow`.
  unfoldable pub emplace_back : Vec A → Ref A → Outcome (Vec A)
  unfolding load grow after_grow construct_on_heap
  emplace_back v args =
      if ltb v.vec_size N
      then (do
        a ← load v args
        ok (record v { stack_vec = update v.stack_vec v.vec_size a; vec_size = v.vec_size + 1 }))
      else if v.vec_size == v.vec_capacity
      then (do w ← grow v; construct_on_heap w (after_grow args))
      else construct_on_heap v args
