-- ===== src/SmallVec/Tests.antt =====
-- `vec_routine` for numbers, and the theorems at a vector of two elements that are on the stack.
use mod_cpp.Common.{
  ℕ, zero, suc, ◌+◌, ◌≡◌, refl, ◌==◌, if◌then◌else◌, inr, none, List, [], ◌∷◌, arith,
}
use mod_cpp.Common.Outcome.{Outcome, ok, ◌>>=◌, Returns}
use mod_cpp.SmallVec.{outside, in_stack, load, Vec, new, at, emplace_back}
use mod_cpp.SmallVec.Laws.{Holds, emplace_back_correct}

abbrev new_array : ℕ → ℕ → ℕ
new_array n i = 99

unfoldable emplace_loop : ℕ → ℕ → Vec ℕ → Outcome (Vec ℕ)
unfolding emplace_back
emplace_loop zero i v = ok v
emplace_loop (suc k) i v = do t ← emplace_back 8 new_array v (outside i); emplace_loop k (i + 1) t

unfoldable vec_routine : Outcome (Vec ℕ)
unfolding emplace_loop new
vec_routine = emplace_loop 24 0 (new 8 new_array (λ _. 99))

-- The elements 0, 7, 8 and 23 of the vector
unfoldable read_back : Outcome (List ℕ)
unfolding vec_routine at
read_back = do
  v ← vec_routine
  a ← at 8 new_array v 0
  b ← at 8 new_array v 7
  c ← at 8 new_array v 8
  d ← at 8 new_array v 23
  ok (a ∷ b ∷ c ∷ d ∷ [])

reads_back : read_back ≡ ok (0 ∷ 7 ∷ 8 ∷ 23 ∷ [])
unfolding read_back
reads_back = refl

abbrev two : Vec ℕ
two = record { stack_vec = λ i. i + 5; heap_vec = none; vec_size = 2; vec_capacity = 2 }

two-Holds : Holds 2 two (λ i. i + 5)
two-Holds = record {
  on_stack = λ h. refl;
  elements = λ h i b. refl;
  on_heap = λ h. absurd (omega arith);
}

-- The first element is put behind the others, and the vector moves to the heap.
emplace_back_correct_example :
    Returns
      (λ t. (t.vec_size ≡ 3) × Holds 2 t (λ i. if i == 2 then 5 else i + 5))
      (emplace_back 2 new_array two (in_stack 0))
unfolding load
emplace_back_correct_example =
    emplace_back_correct 2 new_array two (λ i. i + 5) (in_stack 0) 5 (omega arith) two-Holds refl
      (inr refl)
