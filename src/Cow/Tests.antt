-- ===== src/Cow/Tests.antt =====
-- `cow_routine`, and the theorems at three objects that share two cells.
use mod_cpp.Common.{◌≡◌, refl, ltb, ◌==◌, if◌then◌else◌, none, some, [], ◌∷◌, arith}
use mod_cpp.Common.Int.{pos}
use mod_cpp.Common.Outcome.{Outcome, undefined, ◌>>=◌, Returns}
use mod_cpp.Common.RefCount.{refs}
use mod_cpp.Cow.{Store, construct, move_construct, destroy, mutable_operation}
use mod_cpp.Cow.Counted.{IsCounted}
use mod_cpp.Cow.Laws.{IsOwner, mutable_operation_correct, destroy-move_construct}

abbrev empty : Store
empty = record { refcnt = λ _. none; vec = λ _. []; data_of = λ _. none; next = 0 }

-- The new object is destroyed before the old one.
unfoldable cow_routine : Outcome Store
unfolding construct move_construct destroy
cow_routine = do
  let origin_obj = construct empty 0 (pos 1 ∷ pos 2 ∷ pos 3 ∷ [])
  t ← destroy (move_construct origin_obj 1 0) 1
  destroy t 0

cow_routine_undefined : cow_routine ≡ undefined
unfolding cow_routine
cow_routine_undefined = refl

-- The objects 0 and 1 share the cell 0, and 2 has the cell 1.
abbrev store : Store
store = record {
  refcnt = λ m. if m == 0 then some 2 else if m == 1 then some 1 else none;
  vec = λ m. pos m ∷ [];
  data_of = λ i. if ltb i 2 then some 0 else if i == 2 then some 1 else none;
  next = 2;
}

store-IsCounted : IsCounted 4 store
unfolding refs
store-IsCounted = record {
  counted = λ m n h. ground arith;
  backed = λ i m h. ground arith;
  bounded = λ i m h. ground arith;
  fresh = λ m h. ground arith;
}

mutable_operation_correct_example :
    Returns (λ t. IsCounted 4 t × IsOwner store t 1 0) (mutable_operation store 1)
mutable_operation_correct_example = mutable_operation_correct store store-IsCounted 1 0 refl

destroy-move_construct_example :
    (do t ← destroy (move_construct store 3 2) 3; destroy t 2) ≡ undefined
destroy-move_construct_example = destroy-move_construct store 3 2 1 (omega arith) refl refl
