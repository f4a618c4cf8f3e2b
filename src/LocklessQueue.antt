-- ===== src/LocklessQueue.antt =====
-- lockless_queue.cc: `lockless_queue`, a ring of `QueueCapacity` places and four atomic indices. Each
-- access to an index or to a place is one step of a thread, so that the calls of the threads interleave
-- between any two of them.
pub mod Invariant
pub mod Producer
pub mod Consumer
pub mod Fifo
mod Tests
use mod_cpp.Common.{
  ℕ, suc, ◌+◌, ◌%◌, ◌<◌, ◌≡◌, Bool, true, false, not, ◌==◌, if◌then◌else◌, update, List, [], ◌∷◌,
  ◌++◌,
}

-- `pushed` and `popped` are no members: they record what calls of `push` stored and calls of `pop`
-- returned, in the order in which these calls moved `shadow_push_idx` and `shadow_pop_idx`.
pub record Queue (A : Type 0) : Type 0 where
  pub data_at : ℕ → A
  pub push_idx : ℕ
  pub shadow_push_idx : ℕ
  pub pop_idx : ℕ
  pub shadow_pop_idx : ℕ
  pub pushed : List A
  pub popped : List A

-- Where a call of `push` stands, with its argument and its local `current_push_idx`: outside of the
-- call, before `can_push`, before the exchange of `push_idx`, before the write to `data`, and before
-- the exchange of `shadow_push_idx`.
pub data PushPc (A : Type 0) : Type 0 where
  push_idle : PushPc A
  push_testing push_exchanging push_storing push_publishing : A → ℕ → PushPc A

pub data PopPc (A : Type 0) : Type 0 where
  pop_idle : PopPc A
  pop_testing pop_exchanging pop_reading : ℕ → PopPc A
  pop_publishing : A → ℕ → PopPc A

module _ {A : Type 0} (capacity : ℕ) where
  abbrev pub can_push : Queue A → ℕ → Bool
  can_push q current = not (((current + 1) % capacity) == q.shadow_pop_idx)

  abbrev pub can_pop : Queue A → ℕ → Bool
  can_pop q current = not (current == q.shadow_push_idx)

  -- An exchange that fails loads the index, for `push_idx` the loop then tests again, for
  -- `shadow_push_idx` it goes back to `stale`.
  unfoldable pub push_step : Queue A → PushPc A → Queue A × PushPc A
  push_step q push_idle = (q, push_idle)
  push_step q (push_testing val current) =
      (q, if can_push q current then push_exchanging val current else push_idle)
  push_step q (push_exchanging val current) =
      if q.push_idx == current
      then (record q { push_idx = (current + 1) % capacity }, push_storing val current)
      else (q, push_testing val q.push_idx)
  push_step q (push_storing val current) =
      (record q { data_at = update q.data_at current val }, push_publishing val current)
  push_step q (push_publishing val stale) =
      if q.shadow_push_idx == stale
      then (
        record q { shadow_push_idx = (stale + 1) % capacity; pushed = q.pushed ++ val ∷ [] },
        push_idle,
      )
      else (q, push_publishing val stale)

  unfoldable pub pop_step : Queue A → PopPc A → Queue A × PopPc A
  pop_step q pop_idle = (q, pop_idle)
  pop_step q (pop_testing current) =
      (q, if can_pop q current then pop_exchanging current else pop_idle)
  pop_step q (pop_exchanging current) =
      if q.pop_idx == current
      then (record q { pop_idx = (current + 1) % capacity }, pop_reading current)
      else (q, pop_testing q.pop_idx)
  pop_step q (pop_reading current) = (q, pop_publishing (q.data_at current) current)
  pop_step q (pop_publishing ans stale) =
      if q.shadow_pop_idx == stale
      then (
        record q { shadow_pop_idx = (stale + 1) % capacity; popped = q.popped ++ ans ∷ [] },
        pop_idle,
      )
      else (q, pop_publishing ans stale)

-- The first step of a call loads the index.
abbrev pub call_push : {A : Type 0} → Queue A → A → PushPc A
call_push q val = push_testing val q.push_idx

abbrev pub call_pop : {A : Type 0} → Queue A → PopPc A
call_pop q = pop_testing q.pop_idx

pub record System (A : Type 0) : Type 0 where
  pub queue : Queue A
  pub producers : ℕ → PushPc A
  pub consumers : ℕ → PopPc A

abbrev pub new : {A : Type 0} → (ℕ → A) → Queue A
new data_at = record {
  data_at = data_at;
  push_idx = 0;
  shadow_push_idx = 0;
  pop_idx = 0;
  shadow_pop_idx = 0;
  pushed = [];
  popped = [];
}

abbrev pub start : {A : Type 0} → (ℕ → A) → System A
start data_at = record {
  queue = new data_at;
  producers = λ i. push_idle;
  consumers = λ i. pop_idle;
}

abbrev pub produced : {A : Type 0} → System A → ℕ → Queue A × PushPc A → System A
produced s i (q, pc) = record s { queue = q; producers = update s.producers i pc }

abbrev pub consumed : {A : Type 0} → System A → ℕ → Queue A × PopPc A → System A
consumed s i (q, pc) = record s { queue = q; consumers = update s.consumers i pc }

module _ {A : Type 0} (capacity producer_nr consumer_nr : ℕ) where
  pub data Step (s : System A) : System A → Type 0 where
    calls_push :
        (i : ℕ) (val : A)
        → i < producer_nr
        → s.producers i ≡ push_idle
        → Step s (produced s i (s.queue, call_push s.queue val))
    pushes :
        (i : ℕ)
        → i < producer_nr
        → Step s (produced s i (push_step capacity s.queue (s.producers i)))
    calls_pop :
        (i : ℕ)
        → i < consumer_nr
        → s.consumers i ≡ pop_idle
        → Step s (consumed s i (s.queue, call_pop s.queue))
    pops :
        (i : ℕ)
        → i < consumer_nr
        → Step s (consumed s i (pop_step capacity s.queue (s.consumers i)))

  -- `data_at` is what the places hold at first.
  pub data Reach (data_at : ℕ → A) : System A → Type 0 where
    begin : Reach data_at (start data_at)
    later : {s t : System A} → Reach data_at s → Step s t → Reach data_at t
