-- ===== src/LocklessQueue/Consumer.antt =====
-- A step of the consumer keeps the invariant.
use mathlib.Core.List.{append_assoc}
use native.Mathlib.Nat.{suc-mod}
use mod_cpp.Common.{
  ℕ, suc, ◌+◌, ◌%◌, ◌≤◌, ◌<◌, ◌≡◌, sym, ap, ◌∙◌, inl, inr, Bool-cases, true, false, some, List, [],
  ◌∷◌, ◌++◌, length, length-append, get_elem?, ◌==◌, dec_lt, arith,
}
use mod_cpp.Common.Mod.{mod-inj}
use mod_cpp.LocklessQueue.{
  Queue, PushPc, push_idle, push_testing, push_exchanging, push_storing, push_publishing, PopPc,
  pop_idle, pop_testing, pop_exchanging, pop_reading, pop_publishing, can_pop, pop_step,
}
use mod_cpp.LocklessQueue.Invariant.{Ring, count, Reserved, PushInv, PopInv, Inv}

module _ {A : Type 0} (capacity : ℕ) where
  -- What a consumer writes does not concern the producer, as long as there is no more waiting.
  Reserved-written :
      (q : Queue A) (w w' : List A) (current pop shadow : ℕ) (popped : List A)
      → length w' ≤ length w
      → Reserved capacity q w current
      → Reserved capacity
          (record q { pop_idx = pop; shadow_pop_idx = shadow; popped = popped })
          w'
          current
  Reserved-written q w w' current a b l h v = record {
    moved = v.moved;
    at = v.at;
    free = omega (arith, v.free);
  }

  PushInv-written :
      (q : Queue A) (w w' : List A) (p : PushPc A) (pop shadow : ℕ) (popped : List A)
      → length w' ≤ length w
      → PushInv capacity q w p
      → PushInv capacity (record q { pop_idx = pop; shadow_pop_idx = shadow; popped = popped }) w' p
  PushInv-written q w w' push_idle a b l h v = v
  PushInv-written q w w' (push_testing val current) a b l h v = v
  PushInv-written q w w' (push_exchanging val current) a b l h (x, y, z) = (x, y, omega arith)
  PushInv-written q w w' (push_storing val current) a b l h v =
      Reserved-written q w w' current a b l h v
  PushInv-written q w w' (push_publishing val stale) a b l h (v, e) =
      (Reserved-written q w w' stale a b l h v, e)

  can_pop-some :
      (q : Queue A) (w : List A)
      → Ring capacity q w
      → (current : ℕ) → current ≡ length q.popped % capacity
      → can_pop capacity q current ≡ true
      → 0 < length w
  can_pop-some q w r current e flag = elim (dec_lt 0 (length w)) [
    | yes lt ↦ lt
    | no none_left ↦
        let equal : length q.pushed ≡ length q.popped = omega (arith, count capacity q w r) in
        absurd (ground (arith, flag, e, r.shadow_push, equal))
  ]

  -- A pop finds nothing only where nothing waits.
  pub found_nothing :
      (q : Queue A) (w : List A)
      → Ring capacity q w
      → (current : ℕ) → current ≡ length q.popped % capacity
      → can_pop capacity q current ≡ false
      → length w ≡ 0
  found_nothing q w r current e flag = elim (dec_lt 0 (length w)) [
    | no none_left ↦ omega arith
    | yes lt ↦ absurd (
        mod-inj capacity (length q.popped) (length q.pushed) (omega (arith, count capacity q w r))
          (omega (arith, r.bound, count capacity q w r)) (ground (arith, flag, e, r.shadow_push)))
  ]

  the_first :
      {x ans : A} {rest : List A} → get_elem? (x ∷ rest) 0 ≡ some ans → x ∷ rest ≡ ans ∷ rest
  the_first e = cc

  publish-Inv-from :
      (q : Queue A) (w : List A) (ans : A) (stale : ℕ) (p : PushPc A)
      → Ring capacity q w
      → PushInv capacity q w p
      → PopInv capacity q w (pop_publishing ans stale)
      → Inv capacity
          (record q { shadow_pop_idx = (stale + 1) % capacity; popped = q.popped ++ ans ∷ [] })
          p
          pop_idle
  publish-Inv-from q [] ans stale p r i (moved, at, e) = absurd cc
  publish-Inv-from q (x ∷ rest) ans stale p r i (moved, at, e) = record {
    waiting = rest;
    ring = record {
      order =
          r.order
          ∙ ap (λ l. q.popped ++ l) (the_first e)
          ∙ sym (append_assoc q.popped (ans ∷ []) rest);
      shadow_push = r.shadow_push;
      shadow_pop =
          ground (arith, suc-mod (length q.popped) capacity, length-append q.popped (ans ∷ []));
      bound = omega (arith, r.bound);
      kept =
          λ j lt. ground (arith, r.kept (suc j) (omega arith), length-append q.popped (ans ∷ []));
    };
    producer =
        PushInv-written q (x ∷ rest) rest p q.pop_idx ((stale + 1) % capacity)
          (q.popped ++ ans ∷ []) (omega arith) i;
    consumer = ground (arith, length-append q.popped (ans ∷ []));
  }

  pub pop_step-Inv :
      (q : Queue A) (p : PushPc A) (c : PopPc A)
      → Inv capacity q p c
      → Inv capacity (pop_step capacity q c).0 p (pop_step capacity q c).1
  unfolding pop_step
  pop_step-Inv q p pop_idle v = v
  pop_step-Inv q p (pop_testing current) v = elim (Bool-cases (can_pop capacity q current)) [
    | inl flag ↦ rw flag (record {
      waiting = v.waiting;
      ring = v.ring;
      producer = v.producer;
      consumer =
          (v.consumer.0, v.consumer.1, can_pop-some q v.waiting v.ring current v.consumer.1 flag);
    })
    | inr flag ↦ rw flag (record {
      waiting = v.waiting;
      ring = v.ring;
      producer = v.producer;
      consumer = v.consumer.0;
    })
  ]
  pop_step-Inv q p (pop_exchanging current) v = rw (the_same v.consumer) (record {
    waiting = v.waiting;
    ring = record {
      order = v.ring.order;
      shadow_push = v.ring.shadow_push;
      shadow_pop = v.ring.shadow_pop;
      bound = v.ring.bound;
      kept = v.ring.kept;
    };
    producer =
        PushInv-written q v.waiting v.waiting p ((current + 1) % capacity) q.shadow_pop_idx q.popped
          (omega arith) v.producer;
    consumer = (
      ground (arith, v.consumer.1, suc-mod (length q.popped) capacity),
      v.consumer.1,
      v.consumer.2,
    );
  })
    where
      the_same :
          PopInv capacity q v.waiting (pop_exchanging current) → (q.pop_idx == current) ≡ true
      the_same (a, b, lt) = ground arith
  pop_step-Inv q p (pop_reading current) v = record {
    waiting = v.waiting;
    ring = v.ring;
    producer = v.producer;
    consumer =
        (v.consumer.0, v.consumer.1, ground (arith, v.ring.kept 0 v.consumer.2, v.consumer.1));
  }
  pop_step-Inv q p (pop_publishing ans stale) v =
      rw the_same (publish-Inv-from q v.waiting ans stale p v.ring v.producer v.consumer)
    where
      the_same : (q.shadow_pop_idx == stale) ≡ true
      the_same = ground (arith, v.ring.shadow_pop, v.consumer.1)
