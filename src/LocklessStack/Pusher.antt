-- ===== src/LocklessStack/Pusher.antt =====
-- A step of a pusher keeps the invariant.
use mod_cpp.Common.{
  ℕ, ◌≡◌, ◌≢◌, refl, sym, ap, subst, ◌∙◌, ◌⊎◌, inl, inr, Bool, Bool-cases, true, false, not, ◌||◌,
  Option, none, some, ◌∷◌, length, update, arith, ℕ_discrete,
}
use mod_cpp.LocklessStack.{
  Node, event_push, Stack, PushPc, push_idle, push_loading, push_linking, push_exchanging, PopPc,
  same, push_step, call_push,
}
use mod_cpp.LocklessStack.Invariant.{
  free, taken, by_pusher, stacked, replay_push, PushInv, Inv, Chain-update, PushInv-update,
  PopInv-update,
}

pub same_eq : (a b : Option ℕ) → same a b ≡ true → a ≡ b
same_eq none none e = refl
same_eq none (some b) e = absurd cc
same_eq (some a) none e = absurd cc
same_eq (some a) (some b) e = ground arith

module _ {A : Type 0} where
  -- The node at `b`, which no other thread and not the stack holds, is written by the pusher `i`.
  write-Inv :
      (s : Stack A) (pushers : ℕ → PushPc A) (c : PopPc A) (i b : ℕ) (x : Node A) (p : PushPc A)
      → (v : Inv s pushers c) → (v.own b ≡ free) ⊎ (v.own b ≡ by_pusher i)
      → PushInv (update s.heap b (some x)) (update v.own b (by_pusher i)) i p
      → Inv (record s { heap = update s.heap b (some x) }) (update pushers i p) c
  write-Inv s pushers c i b x p v mine own_inv = record {
    items = v.items;
    own = update v.own b (by_pusher i);
    chain =
        Chain-update s.heap v.own s.head v.items b (some x) (by_pusher i) (λ k lt. not_stacked k)
          v.chain;
    replay = v.replay;
    exists = λ a e. ground (arith, v.exists a);
    push = λ j. elim (ℕ_discrete i j) [
      | yes e ↦ ground (arith, own_inv)
      | no other ↦ ground (
        arith,
        PushInv-update s.heap v.own j (pushers j) b (some x) (by_pusher i) (not_other j other)
            (v.push j),
      )
    ];
    pop = PopInv-update s v.own c b x (by_pusher i) s.head s.log not_stacked not_taken refl v.pop;
  }
    where
      not_stacked : (k : ℕ) → v.own b ≢ stacked k
      not_stacked k = ground arith

      not_taken : v.own b ≢ taken
      not_taken = ground arith

      not_other : (j : ℕ) → i ≢ j → v.own b ≢ by_pusher j
      not_other j other = ground arith

  move-Inv :
      (s : Stack A) (pushers : ℕ → PushPc A) (c : PopPc A) (i : ℕ) (p : PushPc A)
      → (v : Inv s pushers c) → PushInv s.heap v.own i p
      → Inv s (update pushers i p) c
  move-Inv s pushers c i p v own_inv = record {
    items = v.items;
    own = v.own;
    chain = v.chain;
    replay = v.replay;
    exists = v.exists;
    push = λ j. elim (ℕ_discrete i j) [
      | yes e ↦ ground (arith, own_inv)
      | no other ↦ ground (arith, v.push j)
    ];
    pop = v.pop;
  }

  -- The exchange puts the node of the pusher on top.
  publish-Inv :
      (s : Stack A) (pushers : ℕ → PushPc A) (c : PopPc A) (i b : ℕ) (val : A)
      → (v : Inv s pushers c) → v.own b ≡ by_pusher i
      → s.heap b ≡ some (record { prev = s.head; value = val })
      → Inv
          (record s {
            heap = update s.heap b (some (record { prev = s.head; value = val }));
            head = some b;
            log = event_push val ∷ s.log;
          })
          (update pushers i push_idle)
          c
  publish-Inv s pushers c i b val v mine live = record {
    items = val ∷ v.items;
    own = update v.own b (stacked (length v.items));
    chain = (
      b,
      s.head,
      refl,
      ground arith,
      ground arith,
      Chain-update s.heap v.own s.head v.items b (some (record { prev = s.head; value = val }))
          (stacked (length v.items)) (λ k lt. not_stacked k) v.chain,
    );
    replay = replay_push val s.log v.items v.replay;
    exists = λ a e. ground (arith, v.exists a);
    push = λ j. elim (ℕ_discrete i j) [
      | yes e ↦ ground (arith, e)
      | no other ↦ ground (
        arith,
        PushInv-update s.heap v.own j (pushers j) b (some (record { prev = s.head; value = val }))
            (stacked (length v.items)) (not_other j other) (v.push j),
      )
    ];
    pop =
        PopInv-update s v.own c b (record { prev = s.head; value = val }) (stacked (length v.items))
          (some b) (event_push val ∷ s.log) not_stacked not_taken refl v.pop;
  }
    where
      not_stacked : (k : ℕ) → v.own b ≢ stacked k
      not_stacked k = ground arith

      not_taken : v.own b ≢ taken
      not_taken = ground arith

      not_other : (j : ℕ) → i ≢ j → v.own b ≢ by_pusher j
      not_other j other = ground arith

  pub update_same :
      (h : ℕ → Option (Node A)) (b : ℕ) (x : Option (Node A)) → h b ≡ x → update h b x ≡ h
  update_same h b x e = λ i a. at a i
    where
      at : (a : ℕ) → update h b x a ≡ h a
      at a = ground arith

  exchange-Inv :
      (fails : Bool) (s : Stack A) (pushers : ℕ → PushPc A) (c : PopPc A) (i : ℕ) (val : A) (b : ℕ)
      (cur_head : Option ℕ)
      → (v : Inv s pushers c) → v.own b ≡ by_pusher i
      → s.heap b ≡ some (record { prev = cur_head; value = val })
      → Inv
          (push_step fails s (push_exchanging val b cur_head)).0
          (update pushers i (push_step fails s (push_exchanging val b cur_head)).1)
          c
  unfolding push_step
  exchange-Inv fails s pushers c i val b cur_head v mine live =
      elim (Bool-cases (fails || not (same s.head cur_head))) [
        | inl again ↦ rw again (move-Inv s pushers c i (push_linking val b s.head) v mine)
        | inr done ↦ rw done (
            subst
              (λ h.
                Inv (record s { heap = h; head = some b; log = event_push val ∷ s.log })
                  (update pushers i push_idle) c)
              (update_same s.heap b (some (record { prev = s.head; value = val })) (on_head done))
              (publish-Inv s pushers c i b val v mine (on_head done)))
      ]
    where
      on_head :
          fails || not (same s.head cur_head) ≡ false
          → s.heap b ≡ some (record { prev = s.head; value = val })
      on_head done =
          live
          ∙ ap (λ h. some (record { prev = h; value = val }))
              (sym (same_eq s.head cur_head (ground (arith, done))))

  pub call_push-Inv :
      (s : Stack A) (pushers : ℕ → PushPc A) (c : PopPc A) (i : ℕ) (val : A) (b : ℕ)
      → s.heap b ≡ none
      → Inv s pushers c
      → Inv (call_push s val b).0 (update pushers i (call_push s val b).1) c
  call_push-Inv s pushers c i val b empty v =
      write-Inv s pushers c i b (record { prev = none; value = val }) (push_loading val b) v
        (inl (v.exists b empty)) (ground arith)

  pub push_step-Inv :
      (fails : Bool) (s : Stack A) (pushers : ℕ → PushPc A) (c : PopPc A) (i : ℕ) (p : PushPc A)
      → pushers i ≡ p
      → Inv s pushers c
      → Inv (push_step fails s p).0 (update pushers i (push_step fails s p).1) c
  unfolding push_step
  push_step-Inv fails s pushers c i p at v = go p (subst (PushInv s.heap v.own i) at (v.push i))
    where
      go :
          (p : PushPc A)
          → PushInv s.heap v.own i p
          → Inv (push_step fails s p).0 (update pushers i (push_step fails s p).1) c
      go push_idle w = move-Inv s pushers c i push_idle v refl
      go (push_loading val b) w = move-Inv s pushers c i (push_linking val b s.head) v w
      go (push_linking val b cur_head) w =
          write-Inv s pushers c i b (record { prev = cur_head; value = val })
            (push_exchanging val b cur_head) v (inr w) (ground arith, ground arith)
      go (push_exchanging val b cur_head) (mine, live) =
          exchange-Inv fails s pushers c i val b cur_head v mine live
