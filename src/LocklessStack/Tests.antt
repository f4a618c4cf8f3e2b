-- ===== src/LocklessStack/Tests.antt =====
-- The test of one thread, a run of two pushers and one popper, and one of two poppers.
use mod_cpp.Common.{
  ℕ, zero, suc, ◌+◌, ◌≡◌, ◌≢◌, ◌⊎◌, refl, Bool, true, false, ◌==◌, if◌then◌else◌, List, [], ◌∷◌,
  arith,
}
use mod_cpp.Common.Outcome.{Outcome, ok, undefined, assert_failed, ◌>>=◌}
use mod_cpp.LocklessStack.{
  event_push, event_pop, Stack, PushPc, PopPc, pop_idle, pop_undefined, push_step, pop_read,
  pop_take, pop_data, pop_delete, pop_step, call_push, call_pop, System, new, start, pushed, popped,
  calls_push, pushes, calls_pop, pops, Reach, begin, later,
}
use mod_cpp.LocklessStack.Invariant.{Replay, pops_of}
use mod_cpp.LocklessStack.Linear.{Elements, linearizable, pops_defined}

-- A call that no other thread disturbs.
abbrev push_alone : ℕ → Stack ℕ × PushPc ℕ → Stack ℕ
unfolding push_step
push_alone zero (s, pc) = s
push_alone (suc n) (s, pc) = push_alone n (push_step false s pc)

abbrev pop_alone : ℕ → Stack ℕ × PopPc ℕ → Stack ℕ
unfolding pop_step
pop_alone zero (s, pc) = s
pop_alone (suc n) (s, pc) = pop_alone n (pop_step false s pc)

-- The node of `i` gets the address `i`.
abbrev push_loop : ℕ → ℕ → Stack ℕ → Stack ℕ
push_loop zero i s = s
push_loop (suc n) i s = push_loop n (i + 1) (push_alone 3 (call_push s i i))

-- `pair_stk` gives the numbers below `n` from the top; each `pop` is compared with it.
abbrev expect : ℕ → List ℕ → Stack ℕ → Outcome (Stack ℕ)
expect i [] s = undefined
expect i (ans ∷ rest) s = if ans == i then ok s else assert_failed

abbrev pop_loop : ℕ → Stack ℕ → Outcome (Stack ℕ)
pop_loop zero s = ok s
pop_loop (suc n) s =
    let t = pop_alone 4 (call_pop s) in expect n t.returned t >>= λ rest. pop_loop n rest

abbrev single_thread_test : Outcome (Stack ℕ)
single_thread_test = pop_loop 10 (push_loop 10 0 new)

abbrev is_ok : Outcome (Stack ℕ) → Bool
is_ok (ok s) = true
is_ok m = false

single_thread_test_ok : is_ok single_thread_test ≡ true
unfolding push_step pop_step pop_read pop_take pop_data pop_delete
single_thread_test_ok = refl

abbrev calling_push : ℕ → ℕ → ℕ → System ℕ → System ℕ
calling_push i val b s = pushed s i (call_push s.stack val b)

abbrev pushing : ℕ → System ℕ → System ℕ
unfolding push_step
pushing i s = pushed s i (push_step false s.stack (s.pushers i))

abbrev calling_pop : ℕ → System ℕ → System ℕ
calling_pop i s = popped s i (call_pop s.stack)

abbrev popping : ℕ → System ℕ → System ℕ
unfolding pop_step
popping i s = popped s i (pop_step false s.stack (s.poppers i))

-- Pusher 0 has linked its node when pusher 1 pushes, so that its exchange fails and it links again.
abbrev two_pushed : System ℕ
two_pushed = pushing 0 (
    pushing 0 (
      pushing 0 (
        pushing 1 (
          pushing 1 (
            pushing 1 (calling_push 1 8 11 (pushing 0 (pushing 0 (calling_push 0 7 10 start)))))))))

two_pushed-Reach : {n : ℕ} → Reach n two_pushed
unfolding push_step
two_pushed-Reach =
    later
      (later
        (later
          (later
            (later
              (later
                (later
                  (later (later (later begin (calls_push 0 7 10 refl refl)) (pushes 0 false))
                    (pushes 0 false))
                  (calls_push 1 8 11 refl refl))
                (pushes 1 false))
              (pushes 1 false))
            (pushes 1 false))
          (pushes 0 false))
        (pushes 0 false))
      (pushes 0 false)

abbrev one_popped : System ℕ
one_popped = popping 0 (popping 0 (popping 0 (popping 0 (calling_pop 0 two_pushed))))

one_popped-Reach : Reach 1 one_popped
unfolding push_step pop_step pop_read pop_take pop_data pop_delete
one_popped-Reach =
    later
      (later
        (later
          (later (later two_pushed-Reach (calls_pop 0 (omega arith) refl))
            (pops 0 false (omega arith)))
          (pops 0 false (omega arith)))
        (pops 0 false (omega arith)))
      (pops 0 false (omega arith))

one_popped_log : one_popped.stack.log ≡ event_pop 7 ∷ event_push 7 ∷ event_push 8 ∷ []
unfolding push_step pop_step pop_read pop_take pop_data pop_delete
one_popped_log = refl

linearizable_example :
    (items : List ℕ) × Replay one_popped.stack.log items
    × Elements one_popped.stack.heap one_popped.stack.head items
linearizable_example = linearizable one_popped one_popped-Reach

pops_defined_example :
    (one_popped.poppers 0 ≢ pop_undefined)
    × ((one_popped.poppers 0 ≢ pop_idle)
        ⊎ (pops_of one_popped.stack.log ≡ one_popped.stack.returned))
pops_defined_example = pops_defined one_popped one_popped-Reach

-- Popper 1 has loaded the head when popper 0 takes the node and deletes it; then it reads `prev` of a
-- node that is gone.
abbrev gone : System ℕ
unfolding pop_step
gone =
    popping 1
      (popping 0 (popping 0 (popping 0 (popping 0 (calling_pop 0 (calling_pop 1 two_pushed))))))

two_poppers_undefined : (gone.poppers 1) ≡ pop_undefined
unfolding push_step pop_step pop_read pop_take pop_data pop_delete
two_poppers_undefined = refl

gone-Reach : Reach 2 gone
unfolding push_step pop_step pop_read pop_take pop_data pop_delete
gone-Reach =
    later
      (later
        (later
          (later
            (later
              (later (later two_pushed-Reach (calls_pop 1 (omega arith) refl))
                (calls_pop 0 (omega arith) refl))
              (pops 0 false (omega arith)))
            (pops 0 false (omega arith)))
          (pops 0 false (omega arith)))
        (pops 0 false (omega arith)))
      (pops 1 false (omega arith))
