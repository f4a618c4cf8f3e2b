-- ===== src/Keyword/Tests.antt =====
-- The sieve as `compute_at_compilation` calls it, with an `N` that is quick to run.
use mod_cpp.Common.{ℕ, ◌≡◌, ◌↔◌, refl, Bool, true, false, [], ◌∷◌, map, arith}
use mod_cpp.Keyword.{filter_primes}
use mod_cpp.Keyword.Sieve.{IsPrime, filter_primes_correct}

-- The entry of 0 stays true.
filter_primes_7 :
    map (filter_primes 7) (0 ∷ 1 ∷ 2 ∷ 3 ∷ 4 ∷ 5 ∷ 6 ∷ 7 ∷ [])
    ≡ true ∷ false ∷ true ∷ true ∷ false ∷ true ∷ false ∷ true ∷ []
unfolding filter_primes
filter_primes_7 = refl

filter_primes_correct_example : (filter_primes 30 29 ≡ true) ↔ IsPrime 29
filter_primes_correct_example =
    filter_primes_correct 30 29 (omega arith) (omega arith) (omega arith)

abbrev compute_at_compilation : ℕ → Bool
compute_at_compilation = filter_primes 100
