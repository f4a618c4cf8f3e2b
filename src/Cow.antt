-- ===== src/Cow.antt =====
-- cow.cc: `COW`, an array that copies share until one of them changes it. The objects and the `Data`
-- cells have numbers; a null pointer is `none`.
pub mod Counted
pub mod Laws
mod Tests
use mod_cpp.Common.{
  ℕ, ◌+◌, ◌-◌, Bool, true, false, not, ◌==◌, if◌then◌else◌, update, Option, none, some, List, [],
}
use mod_cpp.Common.Int.{ℤ}
use mod_cpp.Common.Outcome.{Outcome, ok, undefined, ◌>>=◌, ◌>>◌, assert, or_undefined}

-- `refcnt` says which cells exist and with which count, `vec` is their content; `data` is the pointer
-- of each object, null also where the object does not exist; `next` numbers the next cell.
pub record Store : Type 0 where
  pub refcnt : ℕ → Option ℕ
  pub vec : ℕ → List ℤ
  pub data_of : ℕ → Option ℕ
  pub next : ℕ

abbrev pub set_data : Store → ℕ → Option ℕ → Store
set_data s i d = record s { data_of = update s.data_of i d }

-- The count of the cell, where the pointer is not null and the cell not deleted.
unfoldable pub count : Store → Option ℕ → Outcome (ℕ × ℕ)
count s none = undefined
count s (some m) = do n ← or_undefined (s.refcnt m); ok (m, n)

-- `-- data->refcnt == 0`. That the parameter `data` is set to null afterwards has no effect.
unfoldable pub decrese_refcnt : Store → Option ℕ → Outcome Store
unfolding count
decrese_refcnt s d = do
  (m, n) ← count s d
  ok (record s { refcnt = update s.refcnt m (if n - 1 == 0 then none else some (n - 1)) })

-- `data->refcnt ++`
unfoldable pub increase : Store → Option ℕ → Outcome Store
unfolding count
increase s d = do (m, n) ← count s d; ok (record s { refcnt = update s.refcnt m (some (n + 1)) })

-- `new Data(vec)`
unfoldable pub new_data : Store → List ℤ → Store
new_data s l = record s {
  refcnt = update s.refcnt s.next (some 1);
  vec = update s.vec s.next l;
  next = s.next + 1;
}

-- `COW(Ts&&...)`
unfoldable pub construct : Store → ℕ → List ℤ → Store
unfolding new_data
construct s i l = set_data (new_data s l) i (some s.next)

-- `COW()`
unfoldable pub construct_null : Store → ℕ → Store
construct_null s i = set_data s i none

-- `COW(const COW&)`
unfoldable pub copy_construct : Store → ℕ → ℕ → Outcome Store
unfolding increase
copy_construct s i j = increase (set_data s i (s.data_of j)) (s.data_of j)

-- `operator=(const COW&)` for two different objects
unfoldable pub assign_other : Store → ℕ → ℕ → Outcome Store
unfolding increase decrese_refcnt
assign_other s i j = do
  t ← decrese_refcnt s (s.data_of i)
  increase (set_data t i (t.data_of j)) (t.data_of j)

unfoldable pub assign : Store → ℕ → ℕ → Outcome Store
unfolding assign_other
assign s i j = if i == j then ok s else assign_other s i j

-- `COW(COW&&)`: the pointer of `j` stays.
unfoldable pub move_construct : Store → ℕ → ℕ → Store
move_construct s i j = set_data s i (s.data_of j)

-- `operator=(COW&&)`
unfoldable pub move_assign : Store → ℕ → ℕ → Outcome Store
unfolding decrese_refcnt
move_assign s i j = do
  assert (not (i == j))
  t ← decrese_refcnt s (s.data_of i)
  ok (set_data t i (t.data_of j))

-- `~COW()`, after which the object does not exist
unfoldable pub destroy : Store → ℕ → Outcome Store
unfolding decrese_refcnt
destroy s i = do t ← decrese_refcnt s (s.data_of i); ok (set_data t i none)

-- `new Data(*data)`, `decrese_refcnt(data)`, `data = new_data` for the cell `m`
unfoldable pub detach : Store → ℕ → ℕ → Outcome Store
unfolding decrese_refcnt new_data
detach s i m = do
  t ← decrese_refcnt (new_data s (s.vec m)) (some m)
  ok (set_data t i (some s.next))

unfoldable pub mutable_operation : Store → ℕ → Outcome Store
unfolding count detach
mutable_operation s i = do
  (m, n) ← count s (s.data_of i)
  t ← if n == 1 then ok s else detach s i m
  (_, n') ← count t (t.data_of i)
  assert (n' == 1)
  ok t
