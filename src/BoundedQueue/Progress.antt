-- ===== src/BoundedQueue/Progress.antt =====
-- No wake-up is lost: some call can always run to its end.
use mod_cpp.Common.{
  ℕ, zero, suc, ◌*◌, ◌<◌, ◌≡◌, ◌≢◌, refl, sym, ap, subst, ◌∙◌, ◌⊎◌, inl, inr, Bool-cases, true,
  false, List, [], ◌∷◌, length, length-append, update, not, ltb, dec_lt, arith,
}
use mod_cpp.BoundedQueue.{
  Role, producer, consumer, Pc, top, sleeping, woken, System, may_push, is_empty, may_pop, push,
  pop_front, pop, set_pc, role, Notifies, wakes, nobody, Step, pushes, pops, producer_waits,
  consumer_waits, spurious, Reach, begin, later,
}

Pc-cases : (c : Pc) → (c ≡ sleeping) ⊎ (c ≢ sleeping)
Pc-cases top = inr (λ e. cc)
Pc-cases sleeping = inl refl
Pc-cases woken = inr (λ e. cc)

Role-cases : (r r' : Role) → (r ≡ r') ⊎ (r ≢ r')
Role-cases producer producer = inl refl
Role-cases producer consumer = inr (λ e. cc)
Role-cases consumer producer = inr (λ e. cc)
Role-cases consumer consumer = inl refl

-- A thread below `n` with the property, or none has it.
find :
    (P : ℕ → Type 0)
    → ((w : ℕ) → P w ⊎ ¬ (P w))
    → (n : ℕ) → ((w : ℕ) × (w < n) × P w) ⊎ ((w : ℕ) → w < n → ¬ (P w))
find P cases zero = inr (λ w lt h. omega arith)
find P cases (suc n) = elim (find P cases n) [
  | inl (w, lt, h) ↦ inl (w, omega arith, h)
  | inr none_below ↦ elim (cases n) [
    | inl h ↦ inl (n, omega arith, h)
    | inr not_n ↦ inr (λ w lt. elim (dec_lt w n) [
      | yes l ↦ none_below w l
      | no l ↦ λ h. let e : w ≡ n = omega arith in not_n (subst P e h)
    ])
  ]
]

module _ (thread_nr : ℕ) where
  -- All the threads of a role sleep; none of them does.
  abbrev AllAsleep : Role → (ℕ → Pc) → Type 0
  AllAsleep r pc = (w : ℕ) → w < 2 * thread_nr → role thread_nr w ≡ r → pc w ≡ sleeping

  abbrev IsAsleep : Role → (ℕ → Pc) → ℕ → Type 0
  IsAsleep r pc w = (role thread_nr w ≡ r) × (pc w ≡ sleeping)

  abbrev IsAwake : Role → (ℕ → Pc) → ℕ → Type 0
  IsAwake r pc w = (role thread_nr w ≡ r) × (pc w ≢ sleeping)

  IsAsleep-cases : (r : Role) (pc : ℕ → Pc) (w : ℕ) → IsAsleep r pc w ⊎ ¬ (IsAsleep r pc w)
  IsAsleep-cases r pc w = elim (Role-cases (role thread_nr w) r) [
    | inr other ↦ inr (λ h. other h.0)
    | inl e ↦ elim (Pc-cases (pc w)) [ inl a ↦ inl (e, a) | inr a ↦ inr (λ h. a h.1) ]
  ]

  IsAwake-cases : (r : Role) (pc : ℕ → Pc) (w : ℕ) → IsAwake r pc w ⊎ ¬ (IsAwake r pc w)
  IsAwake-cases r pc w = elim (Role-cases (role thread_nr w) r) [
    | inr other ↦ inr (λ h. other h.0)
    | inl e ↦ elim (Pc-cases (pc w)) [ inl a ↦ inr (λ h. h.1 a) | inr a ↦ inl (e, a) ]
  ]

  notify_one : (r : Role) (pc : ℕ → Pc) → (pc' : ℕ → Pc) × Notifies thread_nr r pc pc'
  notify_one r pc = elim (find (IsAsleep r pc) (IsAsleep-cases r pc) (2 * thread_nr)) [
    | inl (w, lt, (e, a)) ↦ (update pc w woken, wakes w lt e a refl)
    | inr none_left ↦ (pc, nobody (λ w lt e a. none_left w lt (e, a)) refl)
  ]

  some_of : (r : Role) → 0 < thread_nr → (w : ℕ) × (w < 2 * thread_nr) × (role thread_nr w ≡ r)
  some_of consumer pos = (0, omega arith, ground arith)
  some_of producer pos = (thread_nr, omega arith, ground arith)

  -- After a notification some thread of the role is awake, and who was awake stays so.
  Notifies-SomeAwake :
      {r : Role} {pc pc' : ℕ → Pc}
      → Notifies thread_nr r pc pc'
      → 0 < thread_nr
      → AllAsleep r pc'
      → ⊥
  Notifies-SomeAwake (wakes w lt e a up) pos all = ground (arith, all w lt e, ap (λ f. f w) up)
  Notifies-SomeAwake {r} (nobody none_left up) pos all =
      let (w, lt, e) = some_of r pos in none_left w lt e (sym (ap (λ f. f w) up) ∙ all w lt e)

  Notifies-awake :
      {r : Role} {pc pc' : ℕ → Pc}
      → Notifies thread_nr r pc pc'
      → (i : ℕ) → pc i ≢ sleeping
      → pc' i ≢ sleeping
  Notifies-awake {r} {pc} (wakes w lt e a up) i awake at = ground (arith, awake, ap (λ f. f i) up)
  Notifies-awake (nobody none_left up) i awake at = awake (sym (ap (λ f. f i) up) ∙ at)

  -- A role sleeps as a whole only while its condition is false.
  record IsLive {A : Type 0} (capacity : ℕ) (s : System A) : Type 0 where
    consumers : AllAsleep consumer s.pc → may_pop capacity s ≡ false
    producers : AllAsleep producer s.pc → may_push capacity s ≡ false

  module _ {A : Type 0} (capacity : ℕ) where
    Step-IsLive :
        {s t : System A}
        → Step thread_nr capacity s t
        → 0 < thread_nr
        → IsLive capacity s
        → IsLive capacity t
    Step-IsLive {s} (pushes i a pc' lt r e room n) pos v = record {
      consumers = λ all. absurd (Notifies-SomeAwake n pos all);
      producers = λ all. absurd (Notifies-awake n i (λ at. ground arith) (all i lt r));
    }
    Step-IsLive {s} (pops i pc' lt r e some_left n) pos v = record {
      consumers = λ all. absurd (Notifies-awake n i (λ at. ground arith) (all i lt r));
      producers = λ all. absurd (Notifies-SomeAwake n pos all);
    }
    Step-IsLive {s} (producer_waits i lt r e full) pos v = record {
      consumers = λ all. v.consumers (λ w l rw'. ground (arith, all w l rw'));
      producers = λ all. full;
    }
    Step-IsLive {s} (consumer_waits i lt r e none_left) pos v = record {
      consumers = λ all. none_left;
      producers = λ all. v.producers (λ w l rw'. ground (arith, all w l rw'));
    }
    Step-IsLive {s} (spurious i e) pos v = record {
      consumers = λ all. v.consumers (λ w l rw'. ground (arith, all w l rw'));
      producers = λ all. v.producers (λ w l rw'. ground (arith, all w l rw'));
    }

    Reach-IsLive : {s : System A} → Reach thread_nr capacity s → 0 < thread_nr → IsLive capacity s
    Reach-IsLive begin pos = record {
      consumers = λ all. refl;
      producers =
          λ all. let (w, lt, e) = some_of producer pos in absurd (ground (arith, all w lt e));
    }
    Reach-IsLive (later r st) pos = Step-IsLive st pos (Reach-IsLive r pos)

    pop-counts :
        (s : System A)
        → may_pop capacity s ≡ true
        → length (pop capacity s).popped ≡ suc (length s.popped)
    unfolding pop pop_front
    pop-counts s = go s.queue
      where
        go :
            (l : List A)
            → not (is_empty capacity l) ≡ true
            → length (pop_front capacity s l).popped ≡ suc (length s.popped)
        go [] e = absurd cc
        go (x ∷ xs) e = ground (arith, length-append s.popped (x ∷ []))

    push-counts : (s : System A) (a : A) → length (push capacity s a).pushed ≡ suc (length s.pushed)
    unfolding push
    push-counts s a = ground (arith, length-append s.pushed (a ∷ []))

    ready_thread :
        (r : Role) (s : System A)
        → ¬ (AllAsleep r s.pc)
        → (w : ℕ) × (w < 2 * thread_nr) × IsAwake r s.pc w
    ready_thread r s not_all = elim (find (IsAwake r s.pc) (IsAwake-cases r s.pc) (2 * thread_nr)) [
      | inl found ↦ found
      | inr none_awake ↦ absurd (
          not_all (λ w lt e. elim (Pc-cases (s.pc w)) [
            | inl a ↦ a
            | inr a ↦ absurd (none_awake w lt (e, a))
          ]))
    ]

    -- A step that pushes one element or pops one.
    abbrev Completes : System A → Type 0
    Completes s =
        (t : System A) × Step thread_nr capacity s t
        × ((length t.pushed ≡ suc (length s.pushed)) ⊎ (length t.popped ≡ suc (length s.popped)))

    -- With a place in the queue and at least one thread of each kind, in every reachable state some
    -- thread that does not sleep can run a call to its end, where there is an element `a` to push: the
    -- step pushes one element or pops one.
    pub some_call_completes :
        (s : System A) (a : A)
        → Reach thread_nr capacity s
        → 0 < thread_nr
        → 0 < capacity
        → (t : System A) × Step thread_nr capacity s t
          × ((length t.pushed ≡ suc (length s.pushed)) ⊎ (length t.popped ≡ suc (length s.popped)))
    some_call_completes s a r pos room = elim (Bool-cases (may_pop capacity s)) [
      | inl some_left ↦
          pop_by some_left (ready_thread consumer s (λ all. cc (some_left, v.consumers all)))
      | inr none_left ↦
          let free : may_push capacity s ≡ true = empty_free s.queue none_left in
          push_by free (ready_thread producer s (λ all. cc (free, v.producers all)))
    ]
      where
        v : IsLive capacity s
        v = Reach-IsLive r pos

        empty_free :
            (l : List A) → not (is_empty capacity l) ≡ false → ltb (length l) capacity ≡ true
        empty_free [] e = ground arith
        empty_free (x ∷ xs) e = absurd cc

        pop_by :
            may_pop capacity s ≡ true
            → (w : ℕ) × (w < 2 * thread_nr) × IsAwake consumer s.pc w
            → Completes s
        pop_by some_left (w, lt, (e, a)) =
            let (pc', n) = notify_one producer (update s.pc w top) in
            (
              set_pc (pop capacity s) pc',
              pops w pc' lt e a some_left n,
              inr (pop-counts s some_left),
            )

        push_by :
            may_push capacity s ≡ true
            → (w : ℕ) × (w < 2 * thread_nr) × IsAwake producer s.pc w
            → Completes s
        push_by free (w, lt, (e, awake)) =
            let (pc', n) = notify_one consumer (update s.pc w top) in
            (
              set_pc (push capacity s a) pc',
              pushes w a pc' lt e awake free n,
              inl (push-counts s a),
            )
