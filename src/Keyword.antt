-- ===== src/Keyword.antt =====
-- keyword.cc: `filter_primes`, a sieve that runs at compile time.
pub mod Sieve
mod Tests
use mod_cpp.Common.{ℕ, zero, suc, ◌+◌, ◌-◌, Bool, true, false, leb, if◌then◌else◌, update}

-- `for (int j = i + i; j <= N; j += i) is_primes[j] = false;` in at most `n` steps
unfoldable pub clear_loop : ℕ → ℕ → ℕ → ℕ → (ℕ → Bool) → ℕ → Bool
clear_loop zero last i j is_primes = is_primes
clear_loop (suc n) last i j is_primes =
    let rest = clear_loop n last i (j + i) (update is_primes j false) in
    if leb j last then rest else is_primes

-- The loop over `i`, in `n` steps
unfoldable pub sieve_loop : ℕ → ℕ → ℕ → (ℕ → Bool) → ℕ → Bool
unfolding clear_loop
sieve_loop zero last i is_primes = is_primes
sieve_loop (suc n) last i is_primes =
    sieve_loop n last (i + 1)
      (if is_primes i then clear_loop last last i (i + i) is_primes else is_primes)

-- `last` is the template argument `N`, and the array has `N + 1` elements.
unfoldable pub filter_primes : ℕ → ℕ → Bool
unfolding sieve_loop
filter_primes last = update (sieve_loop (last - 1) last 2 (λ k. true)) 1 false
