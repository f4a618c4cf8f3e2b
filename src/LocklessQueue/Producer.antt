-- ===== src/LocklessQueue/Producer.antt =====
-- A step of the producer keeps the invariant.
use mathlib.Core.List.{append_assoc}
use native.Mathlib.Nat.{suc-mod, add-mod_right}
use mod_cpp.Common.{
  ℕ, suc, ◌+◌, ◌%◌, ◌<◌, ◌≡◌, ◌≢◌, refl, ap, ◌∙◌, inl, inr, Bool-cases, true, false, List, [], ◌∷◌,
  ◌++◌, length, length-append, length-of_get_elem?, get_elem?, get_elem?-append_lt,
  get_elem?-append_self, update, ◌==◌, dec_lt, arith,
}
use mod_cpp.Common.Mod.{mod-inj}
use mod_cpp.LocklessQueue.{
  Queue, PushPc, push_idle, push_testing, push_exchanging, push_storing, push_publishing, PopPc,
  pop_idle, pop_testing, pop_exchanging, pop_reading, pop_publishing, can_push, push_step,
}
use mod_cpp.LocklessQueue.Invariant.{Ring, count, Reserved, PushInv, PopInv, Inv}

module _ {A : Type 0} (capacity : ℕ) where
  -- What a producer writes does not concern the consumer, as long as its first element stays.
  PopInv-written :
      (q : Queue A) (w w' : List A) (c : PopPc A) (d : ℕ → A) (push shadow : ℕ) (pushed : List A)
      → (0 < length w → (0 < length w') × (get_elem? w' 0 ≡ get_elem? w 0))
      → PopInv capacity q w c
      → PopInv capacity
          (record q { data_at = d; push_idx = push; shadow_push_idx = shadow; pushed = pushed })
          w'
          c
  PopInv-written q w w' pop_idle d a b l h v = v
  PopInv-written q w w' (pop_testing current) d a b l h v = v
  PopInv-written q w w' (pop_exchanging current) d a b l h (x, y, z) = (x, y, (h z).0)
  PopInv-written q w w' (pop_reading current) d a b l h (x, y, z) = (x, y, (h z).0)
  PopInv-written q w w' (pop_publishing ans current) d a b l h (x, y, z) =
      (x, y, ground (arith, h, length-of_get_elem? w 0 z))

  -- The place that is reserved holds none of the waiting elements.
  place_free :
      (q : Queue A) (w : List A) (i : ℕ)
      → Ring capacity q w
      → i < length w
      → (length q.popped + i) % capacity ≢ length q.pushed % capacity
  place_free q w i r lt =
      mod-inj capacity _ _ (omega (arith, count capacity q w r))
        (omega (arith, r.bound, count capacity q w r))

  store-Ring :
      (q : Queue A) (w : List A) (val : A)
      → Ring capacity q w
      → (current : ℕ) → current ≡ length q.pushed % capacity
      → Ring capacity (record q { data_at = update q.data_at current val }) w
  store-Ring q w val r current e = record {
    order = r.order;
    shadow_push = r.shadow_push;
    shadow_pop = r.shadow_pop;
    bound = r.bound;
    kept = λ i lt. ground (arith, r.kept i lt, place_free q w i r lt);
  }

  publish-Ring :
      (q : Queue A) (w : List A) (val : A)
      → Ring capacity q w
      → (stale : ℕ) → Reserved capacity q w stale
      → q.data_at stale ≡ val
      → Ring capacity
          (record q { shadow_push_idx = (stale + 1) % capacity; pushed = q.pushed ++ val ∷ [] })
          (w ++ val ∷ [])
  publish-Ring q w val r stale v e = record {
    order = ap (λ l. l ++ val ∷ []) r.order ∙ append_assoc q.popped w (val ∷ []);
    shadow_push =
        ground (arith, v.at, suc-mod (length q.pushed) capacity, length-append q.pushed (val ∷ []));
    shadow_pop = r.shadow_pop;
    bound = ground (arith, v.free, length-append w (val ∷ []));
    kept = λ i lt. elim (dec_lt i (length w)) [
      | yes l ↦ get_elem?-append_lt w (val ∷ []) i l ∙ r.kept i l
      | no l ↦
          let at_end : i ≡ length w = ground (arith, length-append w (val ∷ [])) in
          ground (arith, get_elem?-append_self w val, v.at, count capacity q w r, e)
    ];
  }

  same : (w : List A) → 0 < length w → (0 < length w) × (get_elem? w 0 ≡ get_elem? w 0)
  same w lt = (lt, refl)

  can_push-room :
      (q : Queue A) (w : List A)
      → Ring capacity q w
      → (current : ℕ) → current ≡ length q.pushed % capacity
      → can_push capacity q current ≡ true
      → suc (length w) < capacity
  can_push-room q w r current e flag = elim (dec_lt (suc (length w)) capacity) [
    | yes lt ↦ lt
    | no full ↦
        let around : suc (length q.pushed) ≡ length q.popped + capacity =
          omega (arith, r.bound, count capacity q w r) in
        absurd (
          ground (
            arith,
            flag,
            e,
            r.shadow_pop,
            suc-mod (length q.pushed) capacity,
            around,
            add-mod_right (length q.popped) capacity,
          ))
  ]

  -- A push is refused only where no place is left: all but one of them hold elements.
  pub refused :
      (q : Queue A) (w : List A)
      → Ring capacity q w
      → (current : ℕ) → current ≡ length q.pushed % capacity
      → can_push capacity q current ≡ false
      → suc (length w) ≡ capacity
  refused q w r current e flag = elim (dec_lt (suc (length w)) capacity) [
    | no full ↦ omega (arith, r.bound)
    | yes lt ↦ absurd (
        mod-inj capacity (length q.popped) (suc (length q.pushed))
          (omega (arith, count capacity q w r)) (omega (arith, count capacity q w r))
          (ground (arith, flag, e, r.shadow_pop, suc-mod (length q.pushed) capacity)))
  ]

  test-Inv :
      (q : Queue A) (val : A) (current : ℕ) (c : PopPc A)
      → Inv capacity q (push_testing val current) c
      → Inv capacity
          (push_step capacity q (push_testing val current)).0
          (push_step capacity q (push_testing val current)).1
          c
  unfolding push_step
  test-Inv q val current c v = elim (Bool-cases (can_push capacity q current)) [
    | inl flag ↦ rw flag (record {
      waiting = v.waiting;
      ring = v.ring;
      producer =
          (v.producer.0, v.producer.1, can_push-room q v.waiting v.ring current v.producer.1 flag);
      consumer = v.consumer;
    })
    | inr flag ↦ rw flag (record {
      waiting = v.waiting;
      ring = v.ring;
      producer = v.producer.0;
      consumer = v.consumer;
    })
  ]

  exchange-Inv :
      (q : Queue A) (val : A) (current : ℕ) (c : PopPc A)
      → Inv capacity q (push_exchanging val current) c
      → Inv capacity
          (push_step capacity q (push_exchanging val current)).0
          (push_step capacity q (push_exchanging val current)).1
          c
  unfolding push_step
  exchange-Inv q val current c v = rw (the_same v.producer) (record {
    waiting = v.waiting;
    ring = record {
      order = v.ring.order;
      shadow_push = v.ring.shadow_push;
      shadow_pop = v.ring.shadow_pop;
      bound = v.ring.bound;
      kept = v.ring.kept;
    };
    producer = record {
      moved = ground (arith, v.producer.1, suc-mod (length q.pushed) capacity);
      at = v.producer.1;
      free = v.producer.2;
    };
    consumer =
        PopInv-written q v.waiting v.waiting c q.data_at ((current + 1) % capacity)
          q.shadow_push_idx q.pushed (same v.waiting) v.consumer;
  })
    where
      the_same :
          PushInv capacity q v.waiting (push_exchanging val current)
          → (q.push_idx == current) ≡ true
      the_same (a, b, lt) = ground arith

  store-Inv :
      (q : Queue A) (val : A) (current : ℕ) (c : PopPc A)
      → Inv capacity q (push_storing val current) c
      → Inv capacity
          (push_step capacity q (push_storing val current)).0
          (push_step capacity q (push_storing val current)).1
          c
  unfolding push_step
  store-Inv q val current c v = record {
    waiting = v.waiting;
    ring = store-Ring q v.waiting val v.ring current v.producer.at;
    producer = (
      record { moved = v.producer.moved; at = v.producer.at; free = v.producer.free },
      ground arith,
    );
    consumer =
        PopInv-written q v.waiting v.waiting c (update q.data_at current val) q.push_idx
          q.shadow_push_idx q.pushed (same v.waiting) v.consumer;
  }

  publish-Inv :
      (q : Queue A) (val : A) (stale : ℕ) (c : PopPc A)
      → Inv capacity q (push_publishing val stale) c
      → Inv capacity
          (push_step capacity q (push_publishing val stale)).0
          (push_step capacity q (push_publishing val stale)).1
          c
  unfolding push_step
  publish-Inv q val stale c v = rw the_same (record {
    waiting = v.waiting ++ val ∷ [];
    ring = publish-Ring q v.waiting val v.ring stale v.producer.0 v.producer.1;
    producer = ground (arith, v.producer.0.moved, length-append q.pushed (val ∷ []));
    consumer =
        PopInv-written q v.waiting (v.waiting ++ val ∷ []) c q.data_at q.push_idx
          ((stale + 1) % capacity) (q.pushed ++ val ∷ []) (longer v.waiting) v.consumer;
  })
    where
      the_same : (q.shadow_push_idx == stale) ≡ true
      the_same = ground (arith, v.ring.shadow_push, v.producer.0.at)

      longer :
          (w : List A)
          → 0 < length w
          → (0 < length (w ++ val ∷ [])) × (get_elem? (w ++ val ∷ []) 0 ≡ get_elem? w 0)
      longer w lt =
          (omega (arith, length-append w (val ∷ []), lt), get_elem?-append_lt w (val ∷ []) 0 lt)

  pub push_step-Inv :
      (q : Queue A) (p : PushPc A) (c : PopPc A)
      → Inv capacity q p c
      → Inv capacity (push_step capacity q p).0 (push_step capacity q p).1 c
  unfolding push_step
  push_step-Inv q push_idle c v = v
  push_step-Inv q (push_testing val current) c v = test-Inv q val current c v
  push_step-Inv q (push_exchanging val current) c v = exchange-Inv q val current c v
  push_step-Inv q (push_storing val current) c v = store-Inv q val current c v
  push_step-Inv q (push_publishing val stale) c v = publish-Inv q val stale c v
