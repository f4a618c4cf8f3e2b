-- ===== src/Coro/Yields.antt =====
-- What the counter yields.
use mod_cpp.Common.{ℕ, zero, suc, ◌+◌, ◌^◌, ◌<◌, ◌≡◌, refl, ap, ◌∙◌, arith}
use mod_cpp.Common.Outcome.{ok, undefined, ◌>>=◌}
use mod_cpp.Coro.{in_loop, Frame, round, resume_from, resume, counter, resumes}

round_ok :
    (f : Frame) (i k : ℕ)
    → k < 2 ^ 31
    → i + 1 ≡ k
    → round f i ≡ ok (record { suspended = in_loop k; value = i })
unfolding round
round_ok f i k h e = ground (arith, e)

-- The resume number `n + 1` of a counter leaves `n` in the promise, as long as `n + 1` is an int.
pub counter_yields :
    (n value : ℕ)
    → n + 1 < 2 ^ 31
    → resumes (suc n) (counter value) ≡ ok (record { suspended = in_loop (suc n); value = n })
unfolding resume resume_from
counter_yields zero value h = round_ok (counter value) 0 1 (omega arith) refl
counter_yields (suc n) value h =
    ap (λ m. m >>= resume) (counter_yields n value (omega arith))
    ∙ round_ok (record { suspended = in_loop (suc n); value = n }) (suc n) (suc (suc n))
        (omega (arith, h)) (omega arith)

-- The resume number 2 ^ 31 increments the largest int, which is undefined.
pub counter_overflows :
    (n value : ℕ) → suc n + 1 ≡ 2 ^ 31 → resumes (suc (suc n)) (counter value) ≡ undefined
unfolding resume resume_from round
counter_overflows n value e = ap (λ m. m >>= resume) (counter_yields n value (omega arith)) ∙ over
  where
    over : round (record { suspended = in_loop (suc n); value = n }) (suc n) ≡ undefined
    over = ground (arith, e)
