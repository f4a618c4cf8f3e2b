-- ===== src/LocklessQueue/Invariant.antt =====
-- What relates the four indices to the history, for one producer and one consumer.
use mod_cpp.Common.{
  ℕ, suc, ◌+◌, ◌%◌, ◌<◌, ◌≡◌, ap, ◌∙◌, some, List, ◌++◌, length, length-append, get_elem?,
}
use mod_cpp.LocklessQueue.{
  Queue, PushPc, push_idle, push_testing, push_exchanging, push_storing, push_publishing, PopPc,
  pop_idle, pop_testing, pop_exchanging, pop_reading, pop_publishing,
}

module _ {A : Type 0} (capacity : ℕ) where
  -- `waiting` is what was pushed and not popped yet, and stands in the ring from `shadow_pop_idx` on.
  pub record Ring (q : Queue A) (waiting : List A) : Type 0 where
    pub order : q.pushed ≡ q.popped ++ waiting
    pub shadow_push : q.shadow_push_idx ≡ length q.pushed % capacity
    pub shadow_pop : q.shadow_pop_idx ≡ length q.popped % capacity
    pub bound : length waiting < capacity
    pub kept :
        (i : ℕ)
        → i < length waiting
        → get_elem? waiting i ≡ some (q.data_at ((length q.popped + i) % capacity))

  pub count : (q : Queue A) (w : List A) → Ring q w → length q.pushed ≡ length q.popped + length w
  count q w r = ap length r.order ∙ length-append q.popped w

  -- A place that `push_idx` has reserved is free until it is published.
  pub record Reserved (q : Queue A) (waiting : List A) (current : ℕ) : Type 0 where
    pub moved : q.push_idx ≡ suc (length q.pushed) % capacity
    pub at : current ≡ length q.pushed % capacity
    pub free : suc (length waiting) < capacity

  abbrev pub PushInv : Queue A → List A → PushPc A → Type 0
  PushInv q waiting push_idle = q.push_idx ≡ length q.pushed % capacity
  PushInv q waiting (push_testing val current) =
      (q.push_idx ≡ length q.pushed % capacity) × (current ≡ length q.pushed % capacity)
  PushInv q waiting (push_exchanging val current) =
      (q.push_idx ≡ length q.pushed % capacity)
      × (current ≡ length q.pushed % capacity)
      × (suc (length waiting) < capacity)
  PushInv q waiting (push_storing val current) = Reserved q waiting current
  PushInv q waiting (push_publishing val stale) = Reserved q waiting stale × (q.data_at stale ≡ val)

  abbrev pub PopInv : Queue A → List A → PopPc A → Type 0
  PopInv q waiting pop_idle = q.pop_idx ≡ length q.popped % capacity
  PopInv q waiting (pop_testing current) =
      (q.pop_idx ≡ length q.popped % capacity) × (current ≡ length q.popped % capacity)
  PopInv q waiting (pop_exchanging current) =
      (q.pop_idx ≡ length q.popped % capacity)
      × (current ≡ length q.popped % capacity)
      × (0 < length waiting)
  PopInv q waiting (pop_reading current) =
      (q.pop_idx ≡ suc (length q.popped) % capacity)
      × (current ≡ length q.popped % capacity)
      × (0 < length waiting)
  PopInv q waiting (pop_publishing ans stale) =
      (q.pop_idx ≡ suc (length q.popped) % capacity)
      × (stale ≡ length q.popped % capacity)
      × (get_elem? waiting 0 ≡ some ans)

  pub record Inv (q : Queue A) (p : PushPc A) (c : PopPc A) : Type 0 where
    pub waiting : List A
    pub ring : Ring q waiting
    pub producer : PushInv q waiting p
    pub consumer : PopInv q waiting c
