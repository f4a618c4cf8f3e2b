-- ===== src/LocklessStack/Invariant.antt =====
-- Who may touch a node, and what the stack holds, where one thread pops.
use mod_cpp.Common.{
  ℕ, ◌<◌, ◌≡◌, ◌≢◌, refl, ◌∙◌, Option, none, some, List, [], ◌∷◌, length, update, arith,
}
use mod_cpp.LocklessStack.{
  Node, Event, event_push, event_pop, Stack, PushPc, push_idle, push_loading, push_linking,
  push_exchanging, PopPc, pop_idle, pop_undefined, pop_testing, pop_exchanging, pop_reading,
  pop_deleting,
}

-- A node is free, belongs to a thread that pushes it, stands in the stack above a number of others, or
-- was taken off by the thread that pops.
pub data Owner : Type 0 where
  free taken : Owner
  by_pusher stacked : ℕ → Owner

-- The list of elements that a run of the sequential stack has after the events.
pub data Replay {A : Type 0} : List (Event A) → List A → Type 0 where
  replay_new : Replay [] []
  replay_push :
      (val : A) (log : List (Event A)) (l : List A)
      → Replay log l
      → Replay (event_push val ∷ log) (val ∷ l)
  replay_pop :
      (val : A) (log : List (Event A)) (l : List A)
      → Replay log (val ∷ l)
      → Replay (event_pop val ∷ log) l

abbrev pub pops_of : {A : Type 0} → List (Event A) → List A
pops_of [] = []
pops_of (event_push val ∷ log) = pops_of log
pops_of (event_pop val ∷ log) = val ∷ pops_of log

module _ {A : Type 0} where
  -- The nodes from `head` on hold the elements of the list.
  abbrev pub Chain : (ℕ → Option (Node A)) → (ℕ → Owner) → Option ℕ → List A → Type 0
  Chain heap own head [] = head ≡ none
  Chain heap own head (x ∷ l) =
      (a : ℕ) × (prev : Option ℕ) × (head ≡ some a)
      × (own a ≡ stacked (length l))
      × (heap a ≡ some (record { prev = prev; value = x }))
      × Chain heap own prev l

  abbrev pub PushInv : (ℕ → Option (Node A)) → (ℕ → Owner) → ℕ → PushPc A → Type 0
  PushInv heap own i push_idle = own ≡ own
  PushInv heap own i (push_loading val new_node) = own new_node ≡ by_pusher i
  PushInv heap own i (push_linking val new_node cur_head) = own new_node ≡ by_pusher i
  PushInv heap own i (push_exchanging val new_node cur_head) =
      (own new_node ≡ by_pusher i)
      × (heap new_node ≡ some (record { prev = cur_head; value = val }))

  abbrev pub PopInv : Stack A → (ℕ → Owner) → PopPc A → Type 0
  PopInv s own pop_idle = pops_of s.log ≡ s.returned
  PopInv s own pop_undefined = ⊥
  PopInv s own (pop_testing none) = pops_of s.log ≡ s.returned
  PopInv s own (pop_testing (some a)) =
      (pops_of s.log ≡ s.returned)
      × ((k : ℕ) × (own a ≡ stacked k))
      × ((n : Node A) × (s.heap a ≡ some n))
  PopInv s own (pop_exchanging a prev) =
      (pops_of s.log ≡ s.returned)
      × ((k : ℕ) × (own a ≡ stacked k))
      × ((x : A) × (s.heap a ≡ some (record { prev = prev; value = x })))
  PopInv s own (pop_reading a) =
      (own a ≡ taken)
      × ((n : Node A) × (s.heap a ≡ some n) × (pops_of s.log ≡ n.value ∷ s.returned))
  PopInv s own (pop_deleting ans a) =
      (own a ≡ taken) × ((n : Node A) × (s.heap a ≡ some n)) × (pops_of s.log ≡ ans ∷ s.returned)

  pub record Inv (s : Stack A) (pushers : ℕ → PushPc A) (popper : PopPc A) : Type 0 where
    pub items : List A
    pub own : ℕ → Owner
    pub chain : Chain s.heap own s.head items
    pub replay : Replay s.log items
    pub exists : (a : ℕ) → s.heap a ≡ none → own a ≡ free
    pub push : (i : ℕ) → PushInv s.heap own i (pushers i)
    pub pop : PopInv s own popper

  -- A node that the stack does not hold may change.
  pub Chain-update :
      (heap : ℕ → Option (Node A)) (own : ℕ → Owner) (head : Option ℕ) (l : List A) (b : ℕ)
      (x : Option (Node A)) (o : Owner)
      → ((k : ℕ) → k < length l → own b ≢ stacked k)
      → Chain heap own head l
      → Chain (update heap b x) (update own b o) head l
  Chain-update heap own head [] b x o out c = c
  Chain-update heap own head (y ∷ l) b x o out (a, prev, at_head, e, live, c) = (
    a,
    prev,
    at_head,
    ground (arith, out (length l) (omega arith)),
    ground (arith, out (length l) (omega arith)),
    Chain-update heap own prev l b x o (λ k lt. out k (omega arith)) c,
  )

  pub PushInv-update :
      (heap : ℕ → Option (Node A)) (own : ℕ → Owner) (i : ℕ) (p : PushPc A) (b : ℕ)
      (x : Option (Node A)) (o : Owner)
      → own b ≢ by_pusher i
      → PushInv heap own i p
      → PushInv (update heap b x) (update own b o) i p
  PushInv-update heap own i push_idle b x o out v = refl
  PushInv-update heap own i (push_loading val a) b x o out v = ground (arith, out)
  PushInv-update heap own i (push_linking val a h) b x o out v = ground (arith, out)
  PushInv-update heap own i (push_exchanging val a h) b x o out (e, live) =
      (ground (arith, out), ground (arith, out))

  -- What pushers do keeps the state of the popper: they write to nodes that are free or their own.
  pub PopInv-update :
      (s : Stack A) (own : ℕ → Owner) (p : PopPc A) (b : ℕ) (x : Node A) (o : Owner)
      (head : Option ℕ) (log : List (Event A))
      → ((k : ℕ) → own b ≢ stacked k)
      → own b ≢ taken
      → pops_of log ≡ pops_of s.log
      → PopInv s own p
      → PopInv
          (record s { heap = update s.heap b (some x); head = head; log = log })
          (update own b o)
          p
  PopInv-update s own pop_idle b x o head log out out' e v = e ∙ v
  PopInv-update s own pop_undefined b x o head log out out' e v = v
  PopInv-update s own (pop_testing none) b x o head log out out' e v = e ∙ v
  PopInv-update s own (pop_testing (some a)) b x o head log out out' e (v, (k, at), (n, live)) =
      (e ∙ v, (k, ground (arith, out k)), (n, ground (arith, out k)))
  PopInv-update s own (pop_exchanging a prev) b x o head log out out' e (v, (k, at), (n, live)) =
      (e ∙ v, (k, ground (arith, out k)), (n, ground (arith, out k)))
  PopInv-update s own (pop_reading a) b x o head log out out' e (at, (n, live, v)) =
      (ground (arith, out'), (n, ground (arith, out'), e ∙ v))
  PopInv-update s own (pop_deleting ans a) b x o head log out out' e (at, (n, live), v) =
      (ground (arith, out'), (n, ground (arith, out')), e ∙ v)
