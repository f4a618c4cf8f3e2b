-- ===== src/BoundedQueue.antt =====
-- bounded_queue.cc: `sleep_bounded_queue`, a queue under a mutex with two condition variables. A call
-- runs from taking the mutex, or from waking in `wait`, to releasing the mutex or to sleeping, in one
-- step. `thread_nr` threads pop and as many push, as in the routine.
pub mod Fifo
pub mod Progress
mod Tests
use mod_cpp.Common.{
  ℕ, ◌+◌, ◌*◌, ◌<◌, ◌≡◌, ◌≢◌, Bool, true, false, not, ltb, ◌==◌, if◌then◌else◌, update, Option,
  none, some, List, [], ◌∷◌, ◌++◌, length,
}

pub data Role : Type 0 where
  producer consumer : Role

-- Where a thread stands: about to call, asleep in `wait`, or woken there.
pub data Pc : Type 0 where
  top sleeping woken : Pc

-- `pushed` and `popped` record what the calls pushed and returned so far.
pub record System (A : Type 0) : Type 0 where
  pub queue : List A
  pub pc : ℕ → Pc
  pub pushed : List A
  pub popped : List A

module _ {A : Type 0} (capacity : ℕ) where
  -- The conditions of the two waits.
  abbrev pub may_push : System A → Bool
  may_push s = ltb (length s.queue) capacity

  abbrev pub is_empty : List A → Bool
  is_empty [] = true
  is_empty (x ∷ xs) = false

  abbrev pub may_pop : System A → Bool
  may_pop s = not (is_empty s.queue)

  -- `push` after the wait, up to the notification
  unfoldable pub push : System A → A → System A
  push s a = record s { queue = s.queue ++ a ∷ []; pushed = s.pushed ++ a ∷ [] }

  -- `pop` after the wait, up to the notification
  unfoldable pub pop_front : System A → List A → System A
  pop_front s [] = s
  pop_front s (ans ∷ rest) = record s { queue = rest; popped = s.popped ++ ans ∷ [] }

  unfoldable pub pop : System A → System A
  unfolding pop_front
  pop s = pop_front s s.queue

abbrev pub set_pc : {A : Type 0} → System A → (ℕ → Pc) → System A
set_pc s pc = record s { pc = pc }

module _ (thread_nr : ℕ) where
  abbrev pub role : ℕ → Role
  role i = if ltb i thread_nr then consumer else producer

  -- `notify_one`: one of the sleeping threads of that role wakes, where there is one.
  pub data Notifies (r : Role) (pc pc' : ℕ → Pc) : Type 0 where
    wakes :
        (w : ℕ)
        → w < 2 * thread_nr
        → role w ≡ r
        → pc w ≡ sleeping
        → pc' ≡ update pc w woken
        → Notifies r pc pc'
    nobody :
        ((w : ℕ) → w < 2 * thread_nr → role w ≡ r → pc w ≢ sleeping) → pc' ≡ pc → Notifies r pc pc'

  pub data Step {A : Type 0} (capacity : ℕ) (s : System A) : System A → Type 0 where
    pushes :
        (i : ℕ) (a : A) (pc' : ℕ → Pc)
        → i < 2 * thread_nr
        → role i ≡ producer
        → s.pc i ≢ sleeping
        → may_push capacity s ≡ true
        → Notifies consumer (update s.pc i top) pc'
        → Step capacity s (set_pc (push capacity s a) pc')
    pops :
        (i : ℕ) (pc' : ℕ → Pc)
        → i < 2 * thread_nr
        → role i ≡ consumer
        → s.pc i ≢ sleeping
        → may_pop capacity s ≡ true
        → Notifies producer (update s.pc i top) pc'
        → Step capacity s (set_pc (pop capacity s) pc')
    producer_waits :
        (i : ℕ)
        → i < 2 * thread_nr
        → role i ≡ producer
        → s.pc i ≢ sleeping
        → may_push capacity s ≡ false
        → Step capacity s (set_pc s (update s.pc i sleeping))
    consumer_waits :
        (i : ℕ)
        → i < 2 * thread_nr
        → role i ≡ consumer
        → s.pc i ≢ sleeping
        → may_pop capacity s ≡ false
        → Step capacity s (set_pc s (update s.pc i sleeping))
    spurious : (i : ℕ) → s.pc i ≡ sleeping → Step capacity s (set_pc s (update s.pc i woken))

  abbrev pub start : {A : Type 0} → System A
  start = record { queue = []; pc = λ _. top; pushed = []; popped = [] }

  pub data Reach {A : Type 0} (capacity : ℕ) : System A → Type 0 where
    begin : Reach capacity start
    later : {s t : System A} → Reach capacity s → Step capacity s t → Reach capacity t
