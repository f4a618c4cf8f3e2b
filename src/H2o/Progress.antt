-- ===== src/H2o/Progress.antt =====
-- The threads do not all sleep.
use mod_cpp.Common.{ℕ, ◌*◌, ◌<◌, ◌≡◌, ◌≢◌, true, false, Bool-cases, inl, inr, arith}
use mod_cpp.H2o.Output.{IsWater, output-IsWater}
use mod_cpp.H2o.{
  hydrogen, top, sleeping, System, kind, may_print, wait_and_print, attempt, turn,
  check_fully_print, Step, take_turn, resume, spurious, Reach, begin, later,
}

-- A thread sleeps only while its counter is full, and while a molecule is complete some thread is at
-- the top of its loop.
pub record IsLive (thread_nr : ℕ) (s : System) : Type 0 where
  pub asleep : (i : ℕ) → s.pc i ≡ sleeping → may_print (kind thread_nr i) s.shared ≡ false
  pub awake : check_fully_print s.shared ≡ true → (i : ℕ) × (i < 2 * thread_nr) × (s.pc i ≡ top)

module _ {thread_nr : ℕ} where
  attempt-IsLive :
      (s : System) (i : ℕ)
      → i < 2 * thread_nr
      → IsLive thread_nr s
      → (s.pc i ≡ top → check_fully_print s.shared ≡ false)
      → IsLive thread_nr (attempt thread_nr s i)
  unfolding wait_and_print
  attempt-IsLive s i lt v not_top = elim (Bool-cases (may_print (kind thread_nr i) s.shared)) [
    | inl room ↦ rw room (record {
      asleep = λ j e. ground (arith, v.asleep j);
      awake = λ full. (i, lt, ground arith);
    })
    | inr none_left ↦ rw none_left (record {
      asleep = λ j e. ground (arith, v.asleep j);
      awake = λ full. let (k, below, at) = v.awake full in (k, below, ground arith);
    })
  ]

  turn-IsLive :
      (s : System) (i : ℕ)
      → i < 2 * thread_nr
      → IsLive thread_nr s
      → IsLive thread_nr (turn thread_nr s i)
  unfolding turn
  turn-IsLive s i lt v = elim (Bool-cases (check_fully_print s.shared)) [
    | inl full ↦ rw full (record { asleep = λ j e. ground arith; awake = λ again. cc })
    | inr more ↦ rw more (attempt-IsLive s i lt v (λ _. more))
  ]

  Step-IsLive : {s t : System} → Step thread_nr s t → IsLive thread_nr s → IsLive thread_nr t
  Step-IsLive {s} (take_turn i lt e) v = turn-IsLive s i lt v
  Step-IsLive {s} (resume i lt e) v = attempt-IsLive s i lt v (λ at. cc (at, e))
  Step-IsLive {s} (spurious i lt e) v = record {
    asleep = λ j h. ground (arith, v.asleep j);
    awake = λ full. let (k, below, at) = v.awake full in (k, below, ground arith);
  }

  Reach-IsLive : {s : System} → Reach thread_nr s → 0 < thread_nr → IsLive thread_nr s
  Reach-IsLive begin pos = record { asleep = λ i e. cc; awake = λ full. cc }
  Reach-IsLive (later r st) pos = Step-IsLive st (Reach-IsLive r pos)

  -- With at least one thread of each kind, in every reachable state some thread does not sleep: the
  -- threads never wait for one another for ever.
  pub never_all_asleep :
      (s : System)
      → Reach thread_nr s
      → 0 < thread_nr
      → (i : ℕ) × (i < 2 * thread_nr) × (s.pc i ≢ sleeping)
  never_all_asleep s r pos = elim (Bool-cases (check_fully_print s.shared)) [
    | inl full ↦ let (k, below, at) = v.awake full in (k, below, λ e. cc)
    | inr more ↦ elim (Bool-cases (may_print hydrogen s.shared)) [
      | inl room ↦ (0, omega arith, λ e. ground (arith, v.asleep 0 e))
      | inr full_h ↦ (
        thread_nr,
        omega arith,
        λ e. ground (arith, v.asleep thread_nr e, bounds.h_bound, bounds.o_bound),
      )
    ]
  ]
    where
      v : IsLive thread_nr s
      v = Reach-IsLive r pos

      bounds : IsWater s.shared
      bounds = output-IsWater r
