-- ===== src/LocklessStack/Linear.antt =====
-- Any number of pushers and one popper: every interleaving of their steps.
use mod_cpp.Common.{
  ℕ, zero, suc, ◌≡◌, ◌≢◌, refl, subst, ◌⊎◌, inl, inr, Option, none, some, List, [], ◌∷◌, arith,
}
use mod_cpp.LocklessStack.{
  Node, PopPc, pop_idle, pop_undefined, pop_testing, pop_exchanging, pop_reading, pop_deleting,
  System, Step, calls_push, pushes, calls_pop, pops, Reach, begin, later,
}
use mod_cpp.LocklessStack.Invariant.{Owner, free, Replay, replay_new, pops_of, Chain, PopInv, Inv}
use mod_cpp.LocklessStack.Pusher.{call_push-Inv, push_step-Inv}
use mod_cpp.LocklessStack.Popper.{test-head-Inv, pop_step-Inv}

module _ {A : Type 0} where
  SystemInv : System A → Type 0
  SystemInv s = Inv s.stack s.pushers (s.poppers 0)

  Step-Inv : {s t : System A} → Step 1 s t → SystemInv s → SystemInv t
  unfolding SystemInv
  Step-Inv {s} (calls_push i val b idle empty) v =
      call_push-Inv s.stack s.pushers (s.poppers 0) i val b empty v
  Step-Inv {s} (pushes i fails) v =
      push_step-Inv fails s.stack s.pushers (s.poppers 0) i (s.pushers i) refl v
  Step-Inv {s} (calls_pop zero lt idle) v =
      test-head-Inv s.stack s.pushers (s.poppers 0) v (subst (PopInv s.stack v.own) idle v.pop)
  Step-Inv {s} (calls_pop (suc i) lt idle) v = absurd (omega (arith, lt))
  Step-Inv {s} (pops zero fails lt) v = pop_step-Inv fails s.stack s.pushers (s.poppers 0) v
  Step-Inv {s} (pops (suc i) fails lt) v = absurd (omega (arith, lt))

  Reach-Inv : {s : System A} → Reach 1 s → SystemInv s
  unfolding SystemInv
  Reach-Inv begin = record {
    items = [];
    own = λ a. free;
    chain = refl;
    replay = replay_new;
    exists = λ a e. refl;
    push = λ i. refl;
    pop = refl;
  }
  Reach-Inv (later r st) = Step-Inv st (Reach-Inv r)

  -- The nodes from `head` on exist and hold the elements of the list.
  abbrev pub Elements : (ℕ → Option (Node A)) → Option ℕ → List A → Type 0
  Elements heap head [] = head ≡ none
  Elements heap head (x ∷ l) =
      (a : ℕ) × (prev : Option ℕ) × (head ≡ some a)
      × (heap a ≡ some (record { prev = prev; value = x }))
      × Elements heap prev l

  Chain-Elements :
      (heap : ℕ → Option (Node A)) (own : ℕ → Owner) (head : Option ℕ) (l : List A)
      → Chain heap own head l
      → Elements heap head l
  Chain-Elements heap own head [] at_end = at_end
  Chain-Elements heap own head (x ∷ l) (a, prev, at_head, mine, live, rest) =
      (a, prev, at_head, live, Chain-Elements heap own prev l rest)

  -- With any number of pushing threads and one that pops, in every interleaving of their steps, weak
  -- exchanges failing at will: the exchanges that succeeded so far, in their order, are a run of a
  -- sequential stack, in which each `pop` takes the element on top; and the nodes from `head` on exist
  -- and hold the elements of that stack.
  pub linearizable :
      (s : System A)
      → Reach 1 s
      → (items : List A) × Replay s.stack.log items × Elements s.stack.heap s.stack.head items
  unfolding SystemInv
  linearizable s r =
      (v.items, v.replay, Chain-Elements s.stack.heap v.own s.stack.head v.items v.chain)
    where
      v : SystemInv s
      v = Reach-Inv r

  -- With any number of pushing threads and one that pops, the popping thread never reads, takes or
  -- deletes a node that does not exist; and while it is outside of `pop`, its calls have returned the
  -- elements that its exchanges took, in the same order.
  pub pops_defined :
      (s : System A)
      → Reach 1 s
      → (s.poppers 0 ≢ pop_undefined)
        × ((s.poppers 0 ≢ pop_idle) ⊎ (pops_of s.stack.log ≡ s.stack.returned))
  unfolding SystemInv
  pops_defined s r = go (s.poppers 0) (Reach-Inv r).own (Reach-Inv r).pop
    where
      go :
          (c : PopPc A) (own : ℕ → Owner)
          → PopInv s.stack own c
          → (c ≢ pop_undefined) × ((c ≢ pop_idle) ⊎ (pops_of s.stack.log ≡ s.stack.returned))
      go pop_idle own v = (λ e. cc, inr v)
      go pop_undefined own v = absurd v
      go (pop_testing h) own v = (λ e. cc, inl (λ e. cc))
      go (pop_exchanging a prev) own v = (λ e. cc, inl (λ e. cc))
      go (pop_reading a) own v = (λ e. cc, inl (λ e. cc))
      go (pop_deleting ans a) own v = (λ e. cc, inl (λ e. cc))
