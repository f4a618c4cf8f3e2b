-- ===== src/LocklessStack/Popper.antt =====
-- A step of the one popper keeps the invariant.
use mod_cpp.Common.{
  ℕ, ◌≡◌, ap, subst, inl, inr, Bool, Bool-cases, not, ◌||◌, Option, none, some, List, [], ◌∷◌,
  length, update, arith,
}
use mod_cpp.LocklessStack.{
  Node, event_pop, Stack, PushPc, PopPc, pop_idle, pop_undefined, pop_testing, pop_exchanging,
  pop_reading, pop_deleting, same, pop_read, pop_take, pop_data, pop_delete, pop_step,
}
use mod_cpp.LocklessStack.Invariant.{
  Owner, free, taken, Replay, replay_pop, pops_of, Chain, PushInv, PopInv, Inv, Chain-update,
  PushInv-update,
}
use mod_cpp.LocklessStack.Pusher.{same_eq, update_same}

module _ {A : Type 0} where
  become-Inv :
      (s : Stack A) (pushers : ℕ → PushPc A) (c d : PopPc A)
      → (v : Inv s pushers c) → PopInv s v.own d
      → Inv s pushers d
  become-Inv s pushers c d v own_inv = record {
    items = v.items;
    own = v.own;
    chain = v.chain;
    replay = v.replay;
    exists = v.exists;
    push = v.push;
    pop = own_inv;
  }

  -- A node that the head of a chain names is stacked and exists.
  Chain-head :
      (s : Stack A) (own : ℕ → Owner) (l : List A) (head : Option ℕ)
      → Chain s.heap own head l
      → pops_of s.log ≡ s.returned
      → PopInv s own (pop_testing head)
  Chain-head s own [] none at_end e = e
  Chain-head s own [] (some a) at_end e = absurd cc
  Chain-head s own (x ∷ l) none (b, prev, at_head, mine, live, rest) e = absurd cc
  Chain-head s own (x ∷ l) (some a) (b, prev, at_head, mine, live, rest) e = (
    e,
    (length l, ground (arith, mine)),
    (record { prev = prev; value = x }, ground (arith, live)),
  )

  pub test-head-Inv :
      (s : Stack A) (pushers : ℕ → PushPc A) (c : PopPc A)
      → (v : Inv s pushers c) → pops_of s.log ≡ s.returned
      → Inv s pushers (pop_testing s.head)
  test-head-Inv s pushers c v e =
      become-Inv s pushers c (pop_testing s.head) v (Chain-head s v.own v.items s.head v.chain e)

  -- The exchange takes the node from the top.
  take-Inv-from :
      (s : Stack A) (pushers : ℕ → PushPc A) (a : ℕ) (n : Node A) (l : List A) (own : ℕ → Owner)
      → Chain s.heap own s.head l
      → Replay s.log l
      → ((b : ℕ) → s.heap b ≡ none → own b ≡ free)
      → ((i : ℕ) → PushInv s.heap own i (pushers i))
      → pops_of s.log ≡ s.returned
      → s.head ≡ some a
      → s.heap a ≡ some n
      → Inv
          (record s {
            heap = update s.heap a (some n);
            head = n.prev;
            log = event_pop n.value ∷ s.log;
          })
          pushers
          (pop_reading a)
  take-Inv-from s pushers a n [] own at_end r exists push e at live = absurd cc
  take-Inv-from s pushers a n (x ∷ l) own (b, prev, at_head, mine, there, rest) r exists push e at
        live =
      record {
        items = l;
        own = update own a taken;
        chain =
            subst (λ h. Chain (update s.heap a (some n)) (update own a taken) h l) same_prev
              (Chain-update s.heap own prev l a (some n) taken (λ k lt. ground (arith, mine)) rest);
        replay = replay_pop n.value s.log l (subst (λ y. Replay s.log (y ∷ l)) same_value r);
        exists = λ d empty. ground (arith, exists d);
        push = λ i.
            PushInv-update s.heap own i (pushers i) a (some n) taken (ground (arith, mine))
              (push i);
        pop = (ground arith, (n, ground arith, ap (λ t. n.value ∷ t) e));
      }
    where
      top : s.heap a ≡ some (record { prev = prev; value = x })
      top = ground (arith, there)

      same_prev : prev ≡ n.prev
      same_prev = cc (top, live)

      same_value : x ≡ n.value
      same_value = cc (top, live)

  delete-Inv :
      (s : Stack A) (pushers : ℕ → PushPc A) (ans : A) (a : ℕ)
      → (v : Inv s pushers (pop_deleting ans a)) → v.own a ≡ taken
      → pops_of s.log ≡ ans ∷ s.returned
      → Inv (record s { heap = update s.heap a none; returned = ans ∷ s.returned }) pushers pop_idle
  delete-Inv s pushers ans a v mine e = record {
    items = v.items;
    own = update v.own a free;
    chain =
        Chain-update s.heap v.own s.head v.items a none free (λ k lt. ground (arith, mine)) v.chain;
    replay = v.replay;
    exists = λ d empty. ground (arith, v.exists d);
    push = λ i.
        PushInv-update s.heap v.own i (pushers i) a none free (ground (arith, mine)) (v.push i);
    pop = e;
  }

  exchange-Inv :
      (fails : Bool) (s : Stack A) (pushers : ℕ → PushPc A) (a : ℕ) (x : A) (prev : Option ℕ)
      → (v : Inv s pushers (pop_exchanging a prev)) → pops_of s.log ≡ s.returned
      → s.heap a ≡ some (record { prev = prev; value = x })
      → Inv
          (pop_step fails s (pop_exchanging a prev)).0
          pushers
          (pop_step fails s (pop_exchanging a prev)).1
  unfolding pop_step pop_take
  exchange-Inv fails s pushers a x prev v e live =
      elim (Bool-cases (fails || not (same s.head (some a)))) [
        | inl again ↦ rw again (test-head-Inv s pushers (pop_exchanging a prev) v e)
        | inr done ↦ rw done (
            rw live (
              subst
                (λ h.
                  Inv (record s { heap = h; head = prev; log = event_pop x ∷ s.log }) pushers
                    (pop_reading a))
                (update_same s.heap a (some (record { prev = prev; value = x })) live)
                (take-Inv-from s pushers a (record { prev = prev; value = x }) v.items v.own v.chain
                  v.replay v.exists v.push e (same_eq s.head (some a) (ground (arith, done)))
                  live)))
      ]

  pub pop_step-Inv :
      (fails : Bool) (s : Stack A) (pushers : ℕ → PushPc A) (c : PopPc A)
      → Inv s pushers c
      → Inv (pop_step fails s c).0 pushers (pop_step fails s c).1
  unfolding pop_step pop_read pop_data pop_delete
  pop_step-Inv fails s pushers pop_idle v = v
  pop_step-Inv fails s pushers pop_undefined v = v
  pop_step-Inv fails s pushers (pop_testing none) v =
      become-Inv s pushers (pop_testing none) pop_idle v v.pop
  pop_step-Inv fails s pushers (pop_testing (some a)) v = go v.pop
    where
      go :
          PopInv s v.own (pop_testing (some a))
          → Inv (pop_read s a (s.heap a)).0 pushers (pop_read s a (s.heap a)).1
      go (e, mine, (n, live)) = rw live (
          become-Inv s pushers (pop_testing (some a)) (pop_exchanging a n.prev) v
            (e, mine, (n.value, live)))
  pop_step-Inv fails s pushers (pop_exchanging a prev) v = go v.pop
    where
      go :
          PopInv s v.own (pop_exchanging a prev)
          → Inv
              (pop_step fails s (pop_exchanging a prev)).0
              pushers
              (pop_step fails s (pop_exchanging a prev)).1
      go (e, mine, (x, live)) = exchange-Inv fails s pushers a x prev v e live
  pop_step-Inv fails s pushers (pop_reading a) v = go v.pop
    where
      go :
          PopInv s v.own (pop_reading a)
          → Inv (pop_data s a (s.heap a)).0 pushers (pop_data s a (s.heap a)).1
      go (mine, (n, live, e)) =
          rw live
            (become-Inv s pushers (pop_reading a) (pop_deleting n.value a) v (mine, (n, live), e))
  pop_step-Inv fails s pushers (pop_deleting ans a) v = go v.pop
    where
      go :
          PopInv s v.own (pop_deleting ans a)
          → Inv (pop_delete s ans a (s.heap a)).0 pushers (pop_delete s ans a (s.heap a)).1
      go (mine, (n, live), e) = rw live (delete-Inv s pushers ans a v mine e)
