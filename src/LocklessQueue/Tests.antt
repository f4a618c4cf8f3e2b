-- ===== src/LocklessQueue/Tests.antt =====
-- The test of one thread, a run of one producer and one consumer, and one of two producers in which
-- an element gets lost.
use mod_cpp.Common.{
  ℕ, zero, suc, ◌+◌, ◌<◌, ◌≡◌, refl, false, ◌==◌, if◌then◌else◌, Option, none, some, List, [], ◌∷◌,
  ◌++◌, length, arith,
}
use mod_cpp.Common.Outcome.{Outcome, ok, undefined, assert_failed, ◌>>=◌}
use mod_cpp.LocklessQueue.{
  Queue, PushPc, PopPc, push_idle, pop_idle, pop_publishing, can_pop, push_step, pop_step,
  call_push, call_pop, System, new, start, produced, consumed, calls_push, pushes, calls_pop, pops,
  Reach, begin, later,
}
use mod_cpp.LocklessQueue.Fifo.{fifo_interleaved, refused_only_full}

-- A call that no other thread disturbs.
abbrev push_alone : ℕ → Queue ℕ × PushPc ℕ → Queue ℕ
unfolding push_step
push_alone zero (q, pc) = q
push_alone (suc n) (q, pc) = push_alone n (push_step 4 q pc)

abbrev result : Queue ℕ × PopPc ℕ → Option ℕ × Queue ℕ
unfolding pop_step
result (q, pop_publishing ans stale) = (some ans, (pop_step 4 q (pop_publishing ans stale)).0)
result (q, pc) = (none, q)

abbrev pop_alone : ℕ → Queue ℕ × PopPc ℕ → Option ℕ × Queue ℕ
unfolding pop_step
pop_alone zero s = result s
pop_alone (suc n) (q, pc) = pop_alone n (pop_step 4 q pc)

abbrev push_loop : ℕ → ℕ → Queue ℕ → Queue ℕ
push_loop zero i q = q
push_loop (suc n) i q = push_loop n (i + 1) (push_alone 4 (q, call_push q i))

-- `*(queue.pop())` against the number from `pair_queue`.
abbrev expect : ℕ → Option ℕ × Queue ℕ → Outcome (Queue ℕ)
expect i (none, q) = undefined
expect i (some ans, q) = if ans == i then ok q else assert_failed

-- `pair_queue` gives the numbers from `i` on.
abbrev pop_loop : ℕ → ℕ → Queue ℕ → Outcome (Queue ℕ)
pop_loop zero i q = ok q
pop_loop (suc n) i q = expect i (pop_alone 3 (q, call_pop q)) >>= λ rest. pop_loop n (i + 1) rest

abbrev single_thread_test : Outcome (Queue ℕ)
single_thread_test = pop_loop 10 0 (push_loop 10 0 (new (λ i. 0)))

-- Three of the ten elements have a place; the fourth `pop` returns `nullopt`, which is dereferenced.
single_thread_test_undefined : single_thread_test ≡ undefined
unfolding push_step pop_step
single_thread_test_undefined = refl

-- Two places, so that one element fits.
abbrev calling_push : ℕ → ℕ → System ℕ → System ℕ
calling_push i val s = produced s i (s.queue, call_push s.queue val)

abbrev pushing : ℕ → System ℕ → System ℕ
unfolding push_step
pushing i s = produced s i (push_step 2 s.queue (s.producers i))

abbrev calling_pop : System ℕ → System ℕ
calling_pop s = consumed s 0 (s.queue, call_pop s.queue)

abbrev popping : System ℕ → System ℕ
unfolding pop_step
popping s = consumed s 0 (pop_step 2 s.queue (s.consumers 0))

abbrev push_all : ℕ → ℕ → System ℕ → System ℕ
push_all i val s = pushing i (pushing i (pushing i (pushing i (calling_push i val s))))

abbrev pop_all : System ℕ → System ℕ
pop_all s = popping (popping (popping (popping (calling_pop s))))

abbrev first : System ℕ
first = start (λ i. 0)

module _ {producer_nr : ℕ} where
  push_all-Reach :
      (i val : ℕ) (s : System ℕ)
      → i < producer_nr
      → s.producers i ≡ push_idle
      → Reach 2 producer_nr 1 (λ i. 0) s
      → Reach 2 producer_nr 1 (λ i. 0) (push_all i val s)
  unfolding push_step
  push_all-Reach i val s lt e r =
      later
        (later (later (later (later r (calls_push i val lt e)) (pushes i lt)) (pushes i lt))
          (pushes i lt))
        (pushes i lt)

  pop_all-Reach :
      (s : System ℕ)
      → s.consumers 0 ≡ pop_idle
      → Reach 2 producer_nr 1 (λ i. 0) s
      → Reach 2 producer_nr 1 (λ i. 0) (pop_all s)
  unfolding pop_step
  pop_all-Reach s e r =
      later
        (later
          (later (later (later r (calls_pop 0 (omega arith) e)) (pops 0 (omega arith)))
            (pops 0 (omega arith)))
          (pops 0 (omega arith)))
        (pops 0 (omega arith))

one-Reach : Reach 2 1 1 (λ i. 0) (push_all 0 7 first)
one-Reach = push_all-Reach 0 7 first (omega arith) refl begin

fifo_interleaved_example :
    (waiting : List ℕ) × ((pop_all (push_all 0 7 first)).queue.pushed
      ≡ (pop_all (push_all 0 7 first)).queue.popped ++ waiting)
    × (length waiting < 2)
unfolding push_step
fifo_interleaved_example =
    fifo_interleaved 2 (λ i. 0) (pop_all (push_all 0 7 first)) (omega arith)
      (pop_all-Reach (push_all 0 7 first) refl one-Reach)

refused_only_full_example :
    length (push_all 0 7 first).queue.pushed + 1 ≡ length (push_all 0 7 first).queue.popped + 2
unfolding push_step
refused_only_full_example =
    refused_only_full 2 (λ i. 0) (calling_push 0 8 (push_all 0 7 first)) 8 1 (omega arith)
      (later one-Reach (calls_push 0 8 (omega arith) refl)) refl refl

-- Producer 0 loads the index 0 and finds a place; then producer 1 pushes 7, the consumer pops it, and
-- producer 1 pushes 8, which makes the index 0 again; now producer 0 exchanges it and stores 9.
abbrev loaded : System ℕ
unfolding push_step
loaded = pushing 0 (calling_push 0 9 first)

abbrev around : System ℕ
around = push_all 1 8 (pop_all (push_all 1 7 loaded))

abbrev overtaken : System ℕ
unfolding push_step
overtaken = pushing 0 (pushing 0 (pushing 0 around))

overtaken-Reach : Reach 2 2 1 (λ i. 0) overtaken
unfolding push_step pop_step
overtaken-Reach =
    later
      (later
        (later
          (push_all-Reach 1 8 (pop_all (push_all 1 7 loaded)) (omega arith) refl (
            pop_all-Reach (push_all 1 7 loaded) refl (
              push_all-Reach 1 7 loaded (omega arith) refl (
                later (later begin (calls_push 0 9 (omega arith) refl)) (pushes 0 (omega arith))))))
          (pushes 0 (omega arith)))
        (pushes 0 (omega arith)))
      (pushes 0 (omega arith))

-- Then 8 and 9 were pushed and not popped, and yet the queue reads as empty.
two_lost :
    (overtaken.queue.pushed ≡ 7 ∷ 8 ∷ 9 ∷ [])
    × (overtaken.queue.popped ≡ 7 ∷ [])
    × (can_pop 2 overtaken.queue overtaken.queue.pop_idx ≡ false)
unfolding push_step pop_step
two_lost = (refl, refl, refl)
