-- ===== src/SharedPointer/Tests.antt =====
-- `test_shared_pointer`, and the theorems at its pointers.
use mod_cpp.Common.{
  ℕ, ◌+◌, ◌≡◌, refl, not, ltb, ◌==◌, if◌then◌else◌, Option, none, some, [], ◌∷◌, arith,
}
use mod_cpp.Common.Outcome.{Outcome, ok, ◌>>=◌, ◌>>◌, assert, Returns}
use mod_cpp.Common.RefCount.{refs}
use mod_cpp.SharedPointer.{
  Store, construct, copy_construct, copy_assign, move_construct, move_assign, destroy, get_refcount,
  is_set, lock, construct_null, weak_assign, weak_construct, weak_destroy,
}
use mod_cpp.SharedPointer.Counted.{IsCounted}
use mod_cpp.SharedPointer.Laws.{destroy_correct, copy_assign_correct}
use mod_cpp.SharedPointer.Weak.{IsSubscribed, contains, destroy-reset}

-- The values 0 and 1 exist, and no pointer.
abbrev empty : Store
empty = record {
  alive = λ p. ltb p 2;
  refcnt = λ _. none;
  sp_data = λ _. none;
  sp_metadata = λ _. none;
  weak_ptr_set = λ _. [];
  wp_shared = λ _. none;
  next = 0;
}

-- Pointer 0 and its copy 1 hold the value 0, pointer 2 holds the value 1; the weak pointer 0 refers to 0.
abbrev store : Store
store = record empty {
  refcnt = λ m. if m == 0 then some 2 else if m == 1 then some 1 else none;
  sp_data = λ i. if ltb i 2 then some 0 else if i == 2 then some 1 else none;
  sp_metadata = λ i. if ltb i 2 then some 0 else if i == 2 then some 1 else none;
  weak_ptr_set = λ i. if i == 0 then 0 ∷ [] else [];
  wp_shared = λ k. if k == 0 then some 0 else none;
  next = 2;
}

store-IsCounted : IsCounted 4 store
unfolding refs
store-IsCounted = record {
  counted = λ m n h. ground arith;
  backed = λ i m h. ground arith;
  paired = λ i. ground arith;
  same_data = λ i j m h h'. ground arith;
  same_cell = λ i j p h h'. ground arith;
  living = λ i p h. ground arith;
  bounded = λ i m h. ground arith;
  fresh = λ m h. ground arith;
}

store-IsSubscribed : IsSubscribed store
unfolding IsSubscribed contains
store-IsSubscribed k i h = ground arith

unfoldable assert_count : Store → ℕ → ℕ → Outcome (Unit {0})
unfolding get_refcount
assert_count s i n = do a ← get_refcount s i; assert (a == n)

unfoldable test_shared_pointer : Outcome (Unit {0})
unfolding construct copy_construct copy_assign move_construct move_assign assert_count
test_shared_pointer = do
  a ← copy_construct (construct empty 0 0) 1 0
  let b = move_construct a 2 1
  assert_count b 0 2
  assert_count b 2 2
  assert_count b 1 0
  c ← copy_assign (construct b 3 1) 1 3
  assert_count c 1 2
  assert_count c 3 2
  d ← copy_construct c 4 0
  e ← move_assign d 4 3
  assert_count e 1 2
  assert_count e 4 2
  assert_count e 3 0

-- All its assertions hold.
test_shared_pointer_passes : test_shared_pointer ≡ ok tt
unfolding test_shared_pointer
test_shared_pointer_passes = refl

unfoldable test_weak_pointer : Outcome (Option ℕ)
unfolding construct lock is_set weak_assign weak_construct weak_destroy destroy
test_weak_pointer = do
  a ← lock empty 0 9
  assert (not (is_set a 9))
  b ← lock (weak_assign (construct a 0 0) 0 0) 0 9
  assert (is_set b 9)
  c ← destroy b 9
  d ← destroy c 0
  e ← lock d 0 9
  assert (not (is_set e 9))
  let f = weak_destroy (weak_construct (construct e 0 1) 1 0) 1
  g ← destroy f 0
  ok (g.wp_shared 1)

test_weak_pointer_passes : test_weak_pointer ≡ ok none
unfolding test_weak_pointer
test_weak_pointer_passes = refl

destroy_correct_example :
    Returns
      (λ t.
        IsCounted 4 t
        × (t.alive 0 ≡ not (refs 4 store.sp_metadata 0 == 1))
        × (refs 4 t.sp_metadata 0 + 1 ≡ refs 4 store.sp_metadata 0))
      (destroy store 1)
destroy_correct_example = destroy_correct store store-IsCounted 1 0 0 2 refl refl refl

copy_assign_correct_example :
    Returns
      (λ t.
        IsCounted 4 t
        × (t.sp_data 2 ≡ some 0)
        × (t.sp_data 0 ≡ some 0)
        × (t.alive 1 ≡ not (refs 4 store.sp_metadata 1 == 1)))
      (copy_assign store 2 0)
copy_assign_correct_example =
    copy_assign_correct store store-IsCounted 2 0 1 1 1 0 0 (omega arith) refl refl refl refl refl

destroy-reset_example :
    Returns
      (λ t.
        IsCounted 4 t
        × IsSubscribed t
        × ((k j : ℕ) → store.wp_shared k ≡ some 0 → lock t k j ≡ ok (construct_null t j)))
      (destroy store 0)
destroy-reset_example = destroy-reset store store-IsCounted store-IsSubscribed 0
