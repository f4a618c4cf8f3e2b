-- ===== src/LocklessQueue/Fifo.antt =====
-- One producer and one consumer: every interleaving of their steps.
use mathlib.Core.List.{append-nil}
use mod_cpp.Common.{
  ℕ, zero, suc, ◌+◌, ◌%◌, ◌<◌, ◌≡◌, refl, subst, ◌∙◌, false, List, [], ◌∷◌, ◌++◌, length, arith,
}
use mod_cpp.LocklessQueue.{
  Queue, PushPc, push_idle, push_testing, PopPc, pop_idle, pop_testing, can_push, can_pop,
  call_push, call_pop, System, start, Step, calls_push, pushes, calls_pop, pops, Reach, begin,
  later,
}
use mod_cpp.LocklessQueue.Invariant.{count, PushInv, PopInv, Inv}
use mod_cpp.LocklessQueue.Producer.{refused, push_step-Inv}
use mod_cpp.LocklessQueue.Consumer.{found_nothing, pop_step-Inv}

module _ {A : Type 0} (capacity : ℕ) where
  SystemInv : System A → Type 0
  SystemInv s = Inv capacity s.queue (s.producers 0) (s.consumers 0)

  call_push-Inv :
      (q : Queue A) (val : A) (p : PushPc A) (c : PopPc A)
      → p ≡ push_idle
      → Inv capacity q p c
      → Inv capacity q (call_push q val) c
  call_push-Inv q val p c e v = record {
    waiting = v.waiting;
    ring = v.ring;
    producer = (idle_at, idle_at);
    consumer = v.consumer;
  }
    where
      idle_at : q.push_idx ≡ length q.pushed % capacity
      idle_at = subst (PushInv capacity q v.waiting) e v.producer

  call_pop-Inv :
      (q : Queue A) (p : PushPc A) (c : PopPc A)
      → c ≡ pop_idle
      → Inv capacity q p c
      → Inv capacity q p (call_pop q)
  call_pop-Inv q p c e v = record {
    waiting = v.waiting;
    ring = v.ring;
    producer = v.producer;
    consumer = (idle_at, idle_at);
  }
    where
      idle_at : q.pop_idx ≡ length q.popped % capacity
      idle_at = subst (PopInv capacity q v.waiting) e v.consumer

  -- With one thread of a kind, only its number 0 steps.
  Step-Inv : {s t : System A} → Step capacity 1 1 s t → SystemInv s → SystemInv t
  unfolding SystemInv
  Step-Inv {s} (calls_push zero val lt e) v =
      call_push-Inv s.queue val (s.producers 0) (s.consumers 0) e v
  Step-Inv {s} (calls_push (suc i) val lt e) v = absurd (omega (arith, lt))
  Step-Inv {s} (pushes zero lt) v = push_step-Inv capacity s.queue (s.producers 0) (s.consumers 0) v
  Step-Inv {s} (pushes (suc i) lt) v = absurd (omega (arith, lt))
  Step-Inv {s} (calls_pop zero lt e) v = call_pop-Inv s.queue (s.producers 0) (s.consumers 0) e v
  Step-Inv {s} (calls_pop (suc i) lt e) v = absurd (omega (arith, lt))
  Step-Inv {s} (pops zero lt) v = pop_step-Inv capacity s.queue (s.producers 0) (s.consumers 0) v
  Step-Inv {s} (pops (suc i) lt) v = absurd (omega (arith, lt))

  new-Inv : (data_at : ℕ → A) → 0 < capacity → SystemInv (start data_at)
  unfolding SystemInv
  new-Inv data_at pos = record {
    waiting = [];
    ring = record {
      order = refl;
      shadow_push = at_zero;
      shadow_pop = at_zero;
      bound = pos;
      kept = λ i lt. absurd (omega (arith, lt));
    };
    producer = at_zero;
    consumer = at_zero;
  }
    where
      at_zero : 0 ≡ 0 % capacity
      at_zero = omega arith

  Reach-Inv :
      {data_at : ℕ → A} {s : System A} → 0 < capacity → Reach capacity 1 1 data_at s → SystemInv s
  Reach-Inv {data_at} pos begin = new-Inv data_at pos
  Reach-Inv pos (later r st) = Step-Inv st (Reach-Inv pos r)

  -- With one producer and one consumer, in every interleaving of their atomic steps, what the calls of
  -- `pop` returned is the first part of what the calls of `push` stored, in the same order; the rest
  -- has fewer elements than the queue has places.
  pub fifo_interleaved :
      (data_at : ℕ → A) (s : System A)
      → 0 < capacity
      → Reach capacity 1 1 data_at s
      → (waiting : List A) × (s.queue.pushed ≡ s.queue.popped ++ waiting)
        × (length waiting < capacity)
  unfolding SystemInv
  fifo_interleaved data_at s pos r = (v.waiting, v.ring.order, v.ring.bound)
    where
      v : SystemInv s
      v = Reach-Inv pos r

  -- With one producer and one consumer, in every interleaving: where the test of `push` refuses an
  -- element, all places but one are taken by elements whose `pop` has not returned.
  pub refused_only_full :
      (data_at : ℕ → A) (s : System A) (val : A) (current : ℕ)
      → 0 < capacity
      → Reach capacity 1 1 data_at s
      → s.producers 0 ≡ push_testing val current
      → can_push capacity s.queue current ≡ false
      → length s.queue.pushed + 1 ≡ length s.queue.popped + capacity
  unfolding SystemInv
  refused_only_full data_at s val current pos r e flag = omega (
    arith,
    refused capacity s.queue v.waiting v.ring current at.1 flag,
    count capacity s.queue v.waiting v.ring,
  )
    where
      v : SystemInv s
      v = Reach-Inv pos r

      at : PushInv capacity s.queue v.waiting (push_testing val current)
      at = subst (PushInv capacity s.queue v.waiting) e v.producer

  -- With one producer and one consumer, in every interleaving: where the test of `pop` finds nothing,
  -- every element that was stored has been returned.
  pub none_only_drained :
      (data_at : ℕ → A) (s : System A) (current : ℕ)
      → 0 < capacity
      → Reach capacity 1 1 data_at s
      → s.consumers 0 ≡ pop_testing current
      → can_pop capacity s.queue current ≡ false
      → s.queue.pushed ≡ s.queue.popped
  unfolding SystemInv
  none_only_drained data_at s current pos r e flag =
      none_waiting v.waiting (found_nothing capacity s.queue v.waiting v.ring current at.1 flag)
        v.ring.order
    where
      v : SystemInv s
      v = Reach-Inv pos r

      at : PopInv capacity s.queue v.waiting (pop_testing current)
      at = subst (PopInv capacity s.queue v.waiting) e v.consumer

      none_waiting :
          (w : List A)
          → length w ≡ 0
          → s.queue.pushed ≡ s.queue.popped ++ w
          → s.queue.pushed ≡ s.queue.popped
      none_waiting [] e o = o ∙ append-nil s.queue.popped
      none_waiting (x ∷ xs) e o = absurd (omega (arith, e))
