-- ===== src/BoundedQueue/Fifo.antt =====
-- What the queue holds in every interleaving of the threads.
use mathlib.Core.List.{append_assoc}
use mod_cpp.Common.{
  ℕ, ◌≤◌, ◌≡◌, refl, sym, ap, ◌∙◌, true, List, [], ◌∷◌, ◌++◌, length, length-append, arith,
}
use mod_cpp.BoundedQueue.{
  Pc, System, may_push, push, pop_front, pop, set_pc, Step, pushes, pops, producer_waits,
  consumer_waits, spurious, Reach, begin, later,
}

-- What was pushed is what was popped and then the queue, which holds at most `capacity` elements.
pub record IsFifo {A : Type 0} (capacity : ℕ) (s : System A) : Type 0 where
  pub order : s.pushed ≡ s.popped ++ s.queue
  pub bound : length s.queue ≤ capacity

module _ {A : Type 0} (capacity : ℕ) where
  push-IsFifo :
      (s : System A) (a : A)
      → IsFifo capacity s
      → may_push capacity s ≡ true
      → IsFifo capacity (push capacity s a)
  unfolding push
  push-IsFifo s a v room = record {
    order = ap (λ l. l ++ a ∷ []) v.order ∙ append_assoc s.popped s.queue (a ∷ []);
    bound = ground (arith, length-append s.queue (a ∷ []));
  }

  pop_front-IsFifo :
      (s : System A) (l : List A)
      → s.queue ≡ l
      → IsFifo capacity s
      → IsFifo capacity (pop_front capacity s l)
  unfolding pop_front
  pop_front-IsFifo s [] e v = v
  pop_front-IsFifo s (ans ∷ rest) e v = record {
    order = v.order ∙ ap (λ l. s.popped ++ l) e ∙ sym (append_assoc s.popped (ans ∷ []) rest);
    bound = ground (arith, v.bound, ap length e);
  }

  set_pc-IsFifo : (s : System A) (pc : ℕ → Pc) → IsFifo capacity s → IsFifo capacity (set_pc s pc)
  set_pc-IsFifo s pc v = record { order = v.order; bound = v.bound }

  Step-IsFifo :
      {thread_nr : ℕ} {s t : System A}
      → Step thread_nr capacity s t
      → IsFifo capacity s
      → IsFifo capacity t
  unfolding pop
  Step-IsFifo {thread_nr} {s} (pushes i a pc' lt r e room n) v =
      set_pc-IsFifo _ pc' (push-IsFifo s a v room)
  Step-IsFifo {thread_nr} {s} (pops i pc' lt r e some_left n) v =
      set_pc-IsFifo _ pc' (pop_front-IsFifo s s.queue refl v)
  Step-IsFifo {thread_nr} {s} (producer_waits i lt r e full) v = set_pc-IsFifo s _ v
  Step-IsFifo {thread_nr} {s} (consumer_waits i lt r e none_left) v = set_pc-IsFifo s _ v
  Step-IsFifo {thread_nr} {s} (spurious i e) v = set_pc-IsFifo s _ v

  -- In every reachable state the elements pushed so far, in the order of the pushes, are the elements
  -- popped so far, in the order of the pops, followed by those in the queue; and the queue holds at
  -- most `capacity` elements.
  pub fifo_bounded :
      (thread_nr : ℕ) (s : System A)
      → Reach thread_nr capacity s
      → (s.pushed ≡ s.popped ++ s.queue) × (length s.queue ≤ capacity)
  fifo_bounded thread_nr s r = ((go r).order, (go r).bound)
    where
      go : {t : System A} → Reach thread_nr capacity t → IsFifo capacity t
      go begin = record { order = refl; bound = omega arith }
      go (later p st) = Step-IsFifo st (go p)
