-- ===== src/RuleOfFive.antt =====
-- ro5.cc: `RBase` and `RDerived`, which own memory and a socket. The store says which memory `new` has
-- given out, with what it holds, and which descriptors are open.
pub mod Safety
mod Tests
use mod_cpp.Common.{ℕ, ◌≡◌, Bool, true, false, update, Option, none, some}
use mod_cpp.Common.Outcome.{Outcome, ok, undefined, ◌>>=◌, ◌>>◌, or_undefined}
use Prim.Native.String.{String}

pub record Store (T : Type 0) : Type 0 where
  pub heap : ℕ → Option T
  pub is_open : ℕ → Bool

-- The object with the member of its base class; a pointer is `none` where it is null.
pub record RDerived : Type 0 where
  pub data_at : Option ℕ
  pub derived_data : Option ℕ
  pub sockfd : ℕ

-- What a constructor comes to: the object, or the text of the exception.
pub data Constructed : Type 0 where
  made : RDerived → Constructed
  threw : String → Constructed

-- `zero` is the value of `T()`. What `new` and `socket` return is given: two addresses, and a
-- descriptor or `none` for -1.
module _ {T : Type 0} (zero : T) where
  abbrev pub new_cell : Store T → ℕ → Store T
  new_cell s a = record s { heap = update s.heap a (some zero) }

  abbrev pub delete_cell : Store T → ℕ → Option T → Outcome (Store T)
  delete_cell s a none = undefined
  delete_cell s a (some v) = ok (record s { heap = update s.heap a none })

  -- `delete` of a null pointer does nothing.
  abbrev pub delete : Store T → Option ℕ → Outcome (Store T)
  delete s none = ok s
  delete s (some a) = delete_cell s a (s.heap a)

  abbrev pub load : Store T → Option ℕ → Outcome T
  load s none = undefined
  load s (some a) = or_undefined (s.heap a)

  -- `memcpy(to, from, sizeof (T))`, where the code has just made the memory at `to`
  abbrev pub memcpy : Store T → ℕ → Option ℕ → Outcome (Store T)
  memcpy s to from = load s from >>= λ v. ok (record s { heap = update s.heap to (some v) })

  abbrev pub opened : Store T → ℕ → Store T
  opened s fd = record s { is_open = update s.is_open fd true }

  abbrev pub close : Store T → ℕ → Store T
  close s fd = record s { is_open = update s.is_open fd false }

  -- The exception leaves the constructor after `delete derived_data`, so that the destructor of the
  -- base class runs.
  unfoldable pub fail : Store T → ℕ → ℕ → Outcome (Store T × Constructed)
  fail s a b = do
    t ← delete s (some b)
    u ← delete t (some a)
    ok (u, threw "Error creating socket")

  -- `RDerived()`
  unfoldable pub construct : Store T → ℕ → ℕ → Option ℕ → Outcome (Store T × Constructed)
  unfolding fail
  construct s a b none = fail (new_cell (new_cell s a) b) a b
  construct s a b (some fd) = ok (
    opened (new_cell (new_cell s a) b) fd,
    made (record { data_at = some a; derived_data = some b; sockfd = fd }),
  )

  -- `RDerived(const RDerived&)` after the base class
  unfoldable pub copy_derived :
      Store T → RDerived → ℕ → ℕ → Option ℕ → Outcome (Store T × Constructed)
  unfolding fail
  copy_derived s rhs a b none = fail (new_cell s b) a b
  copy_derived s rhs a b (some fd) = do
    t ← memcpy (opened (new_cell s b) fd) b rhs.derived_data
    ok (t, made (record { data_at = some a; derived_data = some b; sockfd = fd }))

  unfoldable pub copy_construct :
      Store T → RDerived → ℕ → ℕ → Option ℕ → Outcome (Store T × Constructed)
  unfolding copy_derived
  copy_construct s rhs a b sock = do
    t ← memcpy (new_cell s a) a rhs.data_at
    copy_derived t rhs a b sock

  -- `RDerived(RDerived&&)`: the new object and what is left of `rhs`
  unfoldable pub move_construct : RDerived → RDerived × RDerived
  move_construct rhs = (rhs, record { data_at = none; derived_data = none; sockfd = 0 })

  unfoldable pub destroy : Store T → RDerived → Outcome (Store T)
  destroy s x = do t ← delete (close s x.sockfd) x.derived_data; delete t x.data_at
