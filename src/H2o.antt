-- ===== src/H2o.antt =====
-- h2o.cc: `h2o_generator`, threads that print H or O under one mutex, so that the output comes in
-- groups of two H and one O. A thread runs from taking the mutex to releasing it, or to the wait that
-- releases it, in one step. `thread_nr` is a parameter; threads below it print H, the others O.
pub mod Output
pub mod Progress
mod Tests
use mod_cpp.Common.{
  ℕ, ◌+◌, ◌*◌, ◌<◌, ◌≡◌, Bool, true, false, ◌&&◌, ltb, ◌==◌, if◌then◌else◌, update, List, [], ◌∷◌,
}

pub data Atom : Type 0 where
  hydrogen oxygen : Atom

-- The shared counters, and what has been printed, the latest first.
pub record Shared : Type 0 where
  pub h_cnt : ℕ
  pub o_cnt : ℕ
  pub out : List Atom

-- Where a thread stands: at the top of its loop, asleep in `wait`, or woken and about to test the
-- condition of `wait` again.
pub data Pc : Type 0 where
  top sleeping woken : Pc

abbrev pub check_fully_print : Shared → Bool
check_fully_print m = (m.h_cnt == 2) && (m.o_cnt == 1)

-- `reset_state` sets the counters and wakes every thread that sleeps.
abbrev pub reset_state : Shared → Shared
reset_state m = record m { h_cnt = 0; o_cnt = 0 }

abbrev pub notified : Pc → Pc
notified sleeping = woken
notified p = p

-- The condition of `wait`.
abbrev pub may_print : Atom → Shared → Bool
may_print hydrogen m = ltb m.h_cnt 2
may_print oxygen m = ltb m.o_cnt 1

abbrev pub print : Atom → Shared → Shared
print hydrogen m = record m { h_cnt = m.h_cnt + 1; out = hydrogen ∷ m.out }
print oxygen m = record m { o_cnt = m.o_cnt + 1; out = oxygen ∷ m.out }

-- `wait` and what follows it in the loop.
unfoldable pub wait_and_print : Atom → Shared → Shared × Pc
wait_and_print a m = if may_print a m then (print a m, top) else (m, sleeping)

pub record System : Type 0 where
  pub shared : Shared
  pub pc : ℕ → Pc

module _ (thread_nr : ℕ) where
  abbrev pub kind : ℕ → Atom
  kind i = if ltb i thread_nr then hydrogen else oxygen

  -- Thread `i` prints or goes to sleep.
  abbrev pub attempt : System → ℕ → System
  attempt s i =
      let (m, p) = wait_and_print (kind i) s.shared in record { shared = m; pc = update s.pc i p }

  -- One turn of the loop of thread `i`.
  unfoldable pub turn : System → ℕ → System
  unfolding wait_and_print
  turn s i =
      if check_fully_print s.shared
      then record { shared = reset_state s.shared; pc = λ j. notified (s.pc j) }
      else attempt s i

  -- A thread at the top takes a turn, a woken one tests its condition again, and a sleeping one may
  -- wake without being notified.
  pub data Step (s : System) : System → Type 0 where
    take_turn : (i : ℕ) → i < 2 * thread_nr → s.pc i ≡ top → Step s (turn s i)
    resume : (i : ℕ) → i < 2 * thread_nr → s.pc i ≡ woken → Step s (attempt s i)
    spurious :
        (i : ℕ)
        → i < 2 * thread_nr
        → s.pc i ≡ sleeping
        → Step s (record s { pc = update s.pc i woken })

  abbrev pub start : System
  start = record { shared = record { h_cnt = 0; o_cnt = 0; out = [] }; pc = λ _. top }

  pub data Reach : System → Type 0 where
    begin : Reach start
    later : {s t : System} → Reach s → Step s t → Reach t
