-- ===== src/Coro.antt =====
-- coro.cc: the coroutine `counter` and its promise, as the states in which the frame is suspended.
pub mod Yields
mod Tests
use mod_cpp.Common.{ℕ, zero, suc, ◌+◌, ◌^◌, Bool, true, false, leb, if◌then◌else◌, List, [], ◌∷◌}
use mod_cpp.Common.Outcome.{Outcome, ok, undefined, ◌>>=◌}

-- Where the frame is suspended: in `initial_suspend`, or in the loop with the value of `i`.
pub data Suspended : Type 0 where
  at_initial : Suspended
  in_loop : ℕ → Suspended

-- A member `value` that nothing was written to has the value that the memory had.
pub record Frame : Type 0 where
  pub suspended : Suspended
  pub value : ℕ

-- Whether a coroutine that awaits stops: `await_ready` says that it need not, or `await_suspend` that it
-- shall not.
abbrev pub stops : Bool → Bool → Bool
stops true suspend = false
stops false suspend = suspend

-- `current_promise`: not ready, and `await_suspend` returns false
abbrev pub current_promise_stops : Bool
current_promise_stops = stops false false

-- `suspend_always`
abbrev pub suspend_always_stops : Bool
suspend_always_stops = stops false true

-- One round of the loop: `promise->value = i ++ ;`, where the largest int cannot be incremented. The
-- await at its end stops.
unfoldable pub round : Frame → ℕ → Outcome Frame
round f i =
    if leb (2 ^ 31) (i + 1)
    then undefined
    else ok (record { suspended = in_loop (i + 1); value = i })

unfoldable pub resume_from : Frame → Suspended → Outcome Frame
unfolding round
resume_from f at_initial = if current_promise_stops then ok f else round f 0
resume_from f (in_loop i) = round f i

unfoldable pub resume : Frame → Outcome Frame
unfolding resume_from
resume f = resume_from f f.suspended

-- The call of `counter`: `initial_suspend` stops it at once.
abbrev pub counter : ℕ → Frame
counter value = record { suspended = at_initial; value = value }

abbrev pub resumes : ℕ → Frame → Outcome Frame
resumes zero f = ok f
resumes (suc n) f = resumes n f >>= resume

-- What `coro_main` prints in `n` rounds, the last one first
abbrev pub print_loop : ℕ → Frame → List ℕ → Outcome (List ℕ)
print_loop zero f out = ok out
print_loop (suc n) f out = resume f >>= λ g. print_loop n g (g.value ∷ out)

unfoldable pub coro_main : ℕ → Outcome (List ℕ)
unfolding resume
coro_main value = print_loop 3 (counter value) []
