-- ===== src/BoundedQueue/Tests.antt =====
-- A run of one consumer and one producer over a queue of two elements: the consumer sleeps, two pushes
-- wake it, and it pops.
use mod_cpp.Common.{ℕ, suc, ◌≤◌, ◌≡◌, refl, update, ◌⊎◌, [], ◌∷◌, ◌++◌, length, arith}
use mod_cpp.BoundedQueue.{
  Pc, top, sleeping, woken, System, push, pop, set_pc, wakes, nobody, Step, pushes, pops,
  consumer_waits, start, Reach, begin, later,
}
use mod_cpp.BoundedQueue.Fifo.{fifo_bounded}
use mod_cpp.BoundedQueue.Progress.{some_call_completes}

abbrev asleep : System ℕ
asleep = set_pc (start 1) (update (λ _. top) 0 sleeping)

abbrev pc_one : ℕ → Pc
pc_one = update (update asleep.pc 1 top) 0 woken

abbrev one : System ℕ
one = set_pc (push 2 asleep 7) pc_one

abbrev pc_two : ℕ → Pc
pc_two = update pc_one 1 top

abbrev two : System ℕ
two = set_pc (push 2 one 8) pc_two

abbrev popped : System ℕ
popped = set_pc (pop 2 two) (update pc_two 0 top)

popped-Reach : Reach 1 2 popped
unfolding push pop
popped-Reach =
    later
      (later
        (later (later begin (consumer_waits 0 (omega arith) refl (λ e. cc) refl)) (
          pushes 1 7 pc_one (omega arith) refl (λ e. cc) refl
            (wakes 0 (omega arith) refl refl refl)))
        (pushes 1 8 pc_two (omega arith) refl (λ e. cc) refl
          (nobody (λ w lt e at. ground arith) refl)))
      (pops 0 (update pc_two 0 top) (omega arith) refl (λ e. cc) refl
        (nobody (λ w lt e at. ground arith) refl))

popped_queue : popped.queue ≡ 8 ∷ []
unfolding push pop
popped_queue = refl

fifo_bounded_example : (popped.pushed ≡ popped.popped ++ popped.queue) × (length popped.queue ≤ 2)
fifo_bounded_example = fifo_bounded 2 1 popped popped-Reach

some_call_completes_example :
    (t : System ℕ) × Step 1 2 popped t
    × ((length t.pushed ≡ suc (length popped.pushed))
        ⊎ (length t.popped ≡ suc (length popped.popped)))
some_call_completes_example =
    some_call_completes 1 2 popped 9 popped-Reach (omega arith) (omega arith)
