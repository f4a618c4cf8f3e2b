-- ===== src/LocklessStack.antt =====
-- lockless_stack.cc: `lockless_stack`, a list of nodes with an atomic `head`. Each access to the head
-- or to a node is one step of a thread, so that the calls interleave between any two of them. The store
-- says which nodes exist.
pub mod Invariant
pub mod Pusher
pub mod Popper
pub mod Linear
mod Tests
use mod_cpp.Common.{
  ℕ, ◌<◌, ◌≡◌, Bool, true, false, ◌||◌, not, ◌==◌, if◌then◌else◌, update, Option, none, some, List,
  [], ◌∷◌,
}

pub record Node (A : Type 0) : Type 0 where
  pub prev : Option ℕ
  pub value : A

-- The exchanges of the head that succeed, and for `pop` the element of the node it took.
pub data Event (A : Type 0) : Type 0 where
  event_push event_pop : A → Event A

-- `log` and `returned` are no members: they record the events and what calls of `pop` returned, the
-- newest first.
pub record Stack (A : Type 0) : Type 0 where
  pub heap : ℕ → Option (Node A)
  pub head : Option ℕ
  pub log : List (Event A)
  pub returned : List A

-- Where a call of `push` stands, with its argument, `new_node` and `cur_head`: outside of the call,
-- before `head` is loaded, before `prev` is written, and before the exchange.
pub data PushPc (A : Type 0) : Type 0 where
  push_idle : PushPc A
  push_loading : A → ℕ → PushPc A
  push_linking push_exchanging : A → ℕ → Option ℕ → PushPc A

-- Where a call of `pop` stands, with `cur_head`: outside, before the test of `cur_head` and the read of
-- `prev`, before the exchange, before the read of the element, and before `delete`. An access to a node
-- that does not exist is undefined.
pub data PopPc (A : Type 0) : Type 0 where
  pop_idle pop_undefined : PopPc A
  pop_testing : Option ℕ → PopPc A
  pop_exchanging : ℕ → Option ℕ → PopPc A
  pop_reading : ℕ → PopPc A
  pop_deleting : A → ℕ → PopPc A

abbrev pub same : Option ℕ → Option ℕ → Bool
same none none = true
same none (some b) = false
same (some a) none = false
same (some a) (some b) = a == b

module _ {A : Type 0} where
  -- `fails` says that `compare_exchange_weak` fails although the values agree.
  unfoldable pub push_step : Bool → Stack A → PushPc A → Stack A × PushPc A
  push_step fails s push_idle = (s, push_idle)
  push_step fails s (push_loading val new_node) = (s, push_linking val new_node s.head)
  push_step fails s (push_linking val new_node cur_head) = (
    record s { heap = update s.heap new_node (some (record { prev = cur_head; value = val })) },
    push_exchanging val new_node cur_head,
  )
  push_step fails s (push_exchanging val new_node cur_head) =
      if fails || not (same s.head cur_head)
      then (s, push_linking val new_node s.head)
      else (record s { head = some new_node; log = event_push val ∷ s.log }, push_idle)

  unfoldable pub pop_read : Stack A → ℕ → Option (Node A) → Stack A × PopPc A
  pop_read s cur_head none = (s, pop_undefined)
  pop_read s cur_head (some n) = (s, pop_exchanging cur_head n.prev)

  -- The exchange itself reads no node; the node is looked up for `log` only.
  unfoldable pub pop_take : Stack A → ℕ → Option ℕ → Option (Node A) → Stack A × PopPc A
  pop_take s cur_head prev none = (record s { head = prev }, pop_reading cur_head)
  pop_take s cur_head prev (some n) =
      (record s { head = prev; log = event_pop n.value ∷ s.log }, pop_reading cur_head)

  unfoldable pub pop_data : Stack A → ℕ → Option (Node A) → Stack A × PopPc A
  pop_data s cur_head none = (s, pop_undefined)
  pop_data s cur_head (some n) = (s, pop_deleting n.value cur_head)

  unfoldable pub pop_delete : Stack A → A → ℕ → Option (Node A) → Stack A × PopPc A
  pop_delete s ans cur_head none = (s, pop_undefined)
  pop_delete s ans cur_head (some n) =
      (record s { heap = update s.heap cur_head none; returned = ans ∷ s.returned }, pop_idle)

  unfoldable pub pop_step : Bool → Stack A → PopPc A → Stack A × PopPc A
  unfolding pop_read pop_take pop_data pop_delete
  pop_step fails s pop_idle = (s, pop_idle)
  pop_step fails s pop_undefined = (s, pop_undefined)
  pop_step fails s (pop_testing none) = (s, pop_idle)
  pop_step fails s (pop_testing (some cur_head)) = pop_read s cur_head (s.heap cur_head)
  pop_step fails s (pop_exchanging cur_head prev) =
      if fails || not (same s.head (some cur_head))
      then (s, pop_testing s.head)
      else pop_take s cur_head prev (s.heap cur_head)
  pop_step fails s (pop_reading cur_head) = pop_data s cur_head (s.heap cur_head)
  pop_step fails s (pop_deleting ans cur_head) = pop_delete s ans cur_head (s.heap cur_head)

-- `new node(data)` at the address that `new` returns
abbrev pub call_push : {A : Type 0} → Stack A → A → ℕ → Stack A × PushPc A
call_push s val new_node = (
  record s { heap = update s.heap new_node (some (record { prev = none; value = val })) },
  push_loading val new_node,
)

abbrev pub call_pop : {A : Type 0} → Stack A → Stack A × PopPc A
call_pop s = (s, pop_testing s.head)

pub record System (A : Type 0) : Type 0 where
  pub stack : Stack A
  pub pushers : ℕ → PushPc A
  pub poppers : ℕ → PopPc A

abbrev pub new : {A : Type 0} → Stack A
new = record { heap = λ a. none; head = none; log = []; returned = [] }

abbrev pub start : {A : Type 0} → System A
start = record { stack = new; pushers = λ i. push_idle; poppers = λ i. pop_idle }

abbrev pub pushed : {A : Type 0} → System A → ℕ → Stack A × PushPc A → System A
pushed s i (t, pc) = record s { stack = t; pushers = update s.pushers i pc }

abbrev pub popped : {A : Type 0} → System A → ℕ → Stack A × PopPc A → System A
popped s i (t, pc) = record s { stack = t; poppers = update s.poppers i pc }

module _ {A : Type 0} (popper_nr : ℕ) where
  -- Any number of threads push.
  pub data Step (s : System A) : System A → Type 0 where
    calls_push :
        (i : ℕ) (val : A) (new_node : ℕ)
        → s.pushers i ≡ push_idle
        → s.stack.heap new_node ≡ none
        → Step s (pushed s i (call_push s.stack val new_node))
    pushes : (i : ℕ) (fails : Bool) → Step s (pushed s i (push_step fails s.stack (s.pushers i)))
    calls_pop :
        (i : ℕ) → i < popper_nr → s.poppers i ≡ pop_idle → Step s (popped s i (call_pop s.stack))
    pops :
        (i : ℕ) (fails : Bool)
        → i < popper_nr
        → Step s (popped s i (pop_step fails s.stack (s.poppers i)))

  pub data Reach : System A → Type 0 where
    begin : Reach start
    later : {s t : System A} → Reach s → Step s t → Reach t
