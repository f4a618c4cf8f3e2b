-- ===== src/SharedPointer.antt =====
-- shared_ptr.cc: `shared_pointer` and `weak_pointer`. Every object has a number: the values that are
-- pointed to, the metadata cells, the shared pointers and the weak pointers. A null pointer is `none`.
pub mod Counted
pub mod Laws
pub mod Weak
mod Tests
use mod_cpp.Common.{
  ℕ, zero, suc, ◌+◌, ◌-◌, Bool, true, false, ◌&&◌, ◌==◌, if◌then◌else◌, update, Option, none, some,
  is_some, List, [], ◌∷◌,
}
use mod_cpp.Common.Outcome.{Outcome, ok, undefined, assert_failed, ◌>>=◌, ◌>>◌}

-- `alive` says which values exist, `refcnt` which metadata cells exist with which count; `sp_data`,
-- `sp_metadata` and `weak_ptr_set` are the fields of the shared pointers, `wp_shared` that of the weak
-- ones; `next` numbers the next metadata cell. A shared pointer that does not exist has null fields.
pub record Store : Type 0 where
  pub alive : ℕ → Bool
  pub refcnt : ℕ → Option ℕ
  pub sp_data : ℕ → Option ℕ
  pub sp_metadata : ℕ → Option ℕ
  pub weak_ptr_set : ℕ → List ℕ
  pub wp_shared : ℕ → Option ℕ
  pub next : ℕ

abbrev pub set_fields : Store → ℕ → Option ℕ → Option ℕ → Store
set_fields s i d m = record s {
  sp_data = update s.sp_data i d;
  sp_metadata = update s.sp_metadata i m;
}

-- `-- metadata->refcnt == 0`, and the deletions, for the value `p` and the cell `m` with count `n`
unfoldable pub decrease_count : Store → ℕ → ℕ → ℕ → ℕ → Store
decrease_count s i p m n =
    if n - 1 == 0
    then set_fields (record s { alive = update s.alive p false; refcnt = update s.refcnt m none }) i
        none none
    else record s { refcnt = update s.refcnt m (some (n - 1)) }

-- A metadata cell that was deleted cannot be read.
abbrev pub count_of : Option ℕ → Outcome ℕ
count_of none = undefined
count_of (some n) = ok n

-- `assert(metadata)`
abbrev pub asserted : Option ℕ → Outcome ℕ
asserted none = assert_failed
asserted (some m) = ok m

unfoldable pub decrease_with : Store → ℕ → Option ℕ → Outcome Store
unfolding decrease_count
decrease_with s i none = ok s
decrease_with s i (some p) = do
  m ← asserted (s.sp_metadata i)
  n ← count_of (s.refcnt m)
  ok (decrease_count s i p m n)

unfoldable pub decrease_current_refcnt : Store → ℕ → Outcome Store
unfolding decrease_with
decrease_current_refcnt s i = decrease_with s i (s.sp_data i)

-- `metadata->refcnt ++`
unfoldable pub increase : Store → Option ℕ → Outcome Store
increase s none = undefined
increase s (some m) = do
  n ← count_of (s.refcnt m)
  ok (record s { refcnt = update s.refcnt m (some (n + 1)) })

-- `shared_pointer()`
unfoldable pub construct_null : Store → ℕ → Store
construct_null s i = record (set_fields s i none none) { weak_ptr_set = update s.weak_ptr_set i [] }

-- `shared_pointer(T *data)` with a pointer that is not null
unfoldable pub construct : Store → ℕ → ℕ → Store
construct s i p = record (set_fields s i (some p) (some s.next)) {
  refcnt = update s.refcnt s.next (some 1);
  weak_ptr_set = update s.weak_ptr_set i [];
  next = s.next + 1;
}

-- The fields of `j` into `i`, and one more reference.
unfoldable pub attach : Store → ℕ → ℕ → Outcome Store
unfolding increase
attach s i j = increase (set_fields s i (s.sp_data j) (s.sp_metadata j)) (s.sp_metadata j)

-- `shared_pointer(const shared_pointer&)`
unfoldable pub copy_construct : Store → ℕ → ℕ → Outcome Store
unfolding attach
copy_construct s i j = attach (record s { weak_ptr_set = update s.weak_ptr_set i [] }) i j

-- `operator=(const shared_pointer&)`
unfoldable pub copy_assign : Store → ℕ → ℕ → Outcome Store
unfolding decrease_current_refcnt attach
copy_assign s i j = do t ← decrease_current_refcnt s i; attach t i j

-- The fields of `j` into `i`; `j` is left null.
unfoldable pub take_over : Store → ℕ → ℕ → Store
take_over s i j = set_fields (set_fields s i (s.sp_data j) (s.sp_metadata j)) j none none

-- `shared_pointer(shared_pointer&&)`
unfoldable pub move_construct : Store → ℕ → ℕ → Store
unfolding take_over
move_construct s i j = take_over (record s { weak_ptr_set = update s.weak_ptr_set i [] }) i j

-- `operator=(shared_pointer&&)`
unfoldable pub move_assign : Store → ℕ → ℕ → Outcome Store
unfolding decrease_current_refcnt take_over
move_assign s i j = do t ← decrease_current_refcnt s i; ok (take_over t i j)

-- `cancel_subscription` and `add_subscription`: `std::set` as a list.
unfoldable pub erase : ℕ → List ℕ → List ℕ
erase k [] = []
erase k (a ∷ l) = if k == a then erase k l else a ∷ erase k l

unfoldable pub cancel_subscription : Store → ℕ → ℕ → Store
unfolding erase
cancel_subscription s i k = record s {
  weak_ptr_set = update s.weak_ptr_set i (erase k (s.weak_ptr_set i));
}

unfoldable pub add_subscription : Store → ℕ → ℕ → Store
unfolding erase
add_subscription s i k = record s {
  weak_ptr_set = update s.weak_ptr_set i (k ∷ erase k (s.weak_ptr_set i));
}

-- `weak_pointer::reset`, for each weak pointer of the list
unfoldable pub reset_all : List ℕ → (ℕ → Option ℕ) → ℕ → Option ℕ
reset_all [] wp = wp
reset_all (k ∷ l) wp = reset_all l (update wp k none)

-- `~shared_pointer()`, after which the object does not exist
unfoldable pub destroy : Store → ℕ → Outcome Store
unfolding decrease_current_refcnt reset_all
destroy s i = do
  t ← decrease_current_refcnt s i
  ok (record (set_fields t i none none) {
    wp_shared = reset_all (t.weak_ptr_set i) t.wp_shared;
    weak_ptr_set = update t.weak_ptr_set i [];
  })

-- `operator bool`
unfoldable pub is_set : Store → ℕ → Bool
is_set s i = is_some (s.sp_data i) && is_some (s.sp_metadata i)

unfoldable pub get_refcount : Store → ℕ → Outcome ℕ
get_refcount s i = elim (s.sp_metadata i) [ none ↦ ok 0 | some m ↦ count_of (s.refcnt m) ]

-- `weak_pointer(shared_pointer&)`
unfoldable pub weak_construct : Store → ℕ → ℕ → Store
unfolding add_subscription
weak_construct s k i = add_subscription (record s { wp_shared = update s.wp_shared k (some i) }) i k

-- `if (shared_ptr != nullptr) shared_ptr->cancel_subscription(this);`
unfoldable pub cancel_if : Store → ℕ → Option ℕ → Store
unfolding cancel_subscription
cancel_if s k none = s
cancel_if s k (some i) = cancel_subscription s i k

-- `weak_pointer::operator=`
unfoldable pub weak_assign : Store → ℕ → ℕ → Store
unfolding cancel_if weak_construct
weak_assign s k i = weak_construct (cancel_if s k (s.wp_shared k)) k i

-- `lock`, with the shared pointer `j` that it returns
unfoldable pub lock_with : Store → ℕ → Option ℕ → Outcome Store
unfolding construct_null copy_construct
lock_with s j none = ok (construct_null s j)
lock_with s j (some i) = copy_construct s j i

unfoldable pub lock : Store → ℕ → ℕ → Outcome Store
unfolding lock_with
lock s k j = lock_with s j (s.wp_shared k)

-- `~weak_pointer()`
unfoldable pub weak_destroy : Store → ℕ → Store
unfolding cancel_if
weak_destroy s k =
    let t = cancel_if s k (s.wp_shared k) in record t { wp_shared = update t.wp_shared k none }
