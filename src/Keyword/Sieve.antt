-- ===== src/Keyword/Sieve.antt =====
-- The sieve leaves the primes.
use Prim.Native.Nat.{◌∣◌}
use native.Mathlib.Nat.{dvd_refl, dvd_trans, dvd-add, dvd-sub, le_of_dvd}
use mod_cpp.Common.{
  ℕ, zero, suc, ◌+◌, ◌-◌, ◌≤◌, ◌<◌, ◌≡◌, ◌≢◌, ◌↔◌, refl, inl, inr, Bool, Bool-cases, true, false,
  leb, update, dec_lt, dec_le, arith, subst,
}
use mod_cpp.Keyword.{clear_loop, sieve_loop, filter_primes}

abbrev pub IsPrime : ℕ → Type 0
IsPrime k = (2 ≤ k) × ((d : ℕ) → 2 ≤ d → d < k → ¬ (d ∣ k))

-- Two multiples of `i` are at least `i` apart.
next_multiple : (i j k : ℕ) → i ∣ j → i ∣ k → j < k → j + i ≤ k
next_multiple i j k h h' lt =
    let apart : i ≤ k - j = le_of_dvd (omega arith) (dvd-sub i h' h) in omega arith

record Cleared (last i j : ℕ) (a b : ℕ → Bool) : Type 0 where
  stays : (k : ℕ) → b k ≡ true → a k ≡ true
  cleared : (k : ℕ) → k ≤ last → j ≤ k → i ∣ k → b k ≡ false
  kept : (k : ℕ) → a k ≡ true → ¬ ((j ≤ k) × (i ∣ k)) → b k ≡ true

Cleared-step :
    (last i j : ℕ) (a b : ℕ → Bool)
    → i ∣ j
    → Cleared last i (j + i) (update a j false) b
    → Cleared last i j a b
Cleared-step last i j a b h rest = record {
  stays = λ k e. ground (arith, rest.stays k e);
  cleared = λ k below above h'. elim (dec_lt j k) [
    | yes lt ↦ rest.cleared k below (next_multiple i j k h h' lt) h'
    | no over ↦ elim (Bool-cases (b k)) [
      | inr e ↦ e
      | inl e ↦ absurd (ground (arith, rest.stays k e))
    ]
  ];
  kept = λ k e out.
      rest.kept k (update_other k e (λ at. out (omega (arith, at), subst (λ d. i ∣ d) at h)))
        (λ h'. out (omega (arith, h'.0), h'.1));
}
  where
    update_other : (k : ℕ) → a k ≡ true → j ≢ k → update a j false k ≡ true
    update_other k e other = ground arith

clear_loop-Cleared :
    (n last i j : ℕ) (a : ℕ → Bool)
    → last < j + n
    → 0 < i
    → i ∣ j
    → Cleared last i j a (clear_loop n last i j a)
unfolding clear_loop
clear_loop-Cleared zero last i j a fuel pos h = record {
  stays = λ k e. e;
  cleared = λ k below above h'. absurd (omega (arith, fuel));
  kept = λ k e out. e;
}
clear_loop-Cleared (suc n) last i j a fuel pos h = elim (Bool-cases (leb j last)) [
  | inr over ↦ rw over (record {
    stays = λ k e. e;
    cleared = λ k below above h'. absurd (ground (arith, over));
    kept = λ k e out. e;
  })
  | inl inside ↦ rw inside (
      Cleared-step last i j a (clear_loop n last i (j + i) (update a j false)) h (
        clear_loop-Cleared n last i (j + i) (update a j false) (omega arith) pos
          (dvd-add i h (dvd_refl i))))
]

-- After the loop has run for the numbers below `m`, the true entries are those with no divisor there.
record Sieved (last m : ℕ) (a : ℕ → Bool) : Type 0 where
  sound : (k d : ℕ) → k ≤ last → a k ≡ true → 2 ≤ d → d < m → d < k → ¬ (d ∣ k)
  complete : (k : ℕ) → k ≤ last → ((d : ℕ) → 2 ≤ d → d < m → d < k → ¬ (d ∣ k)) → a k ≡ true

clear-Sieved :
    (last m : ℕ) (a : ℕ → Bool)
    → 2 ≤ m
    → Sieved last m a
    → Sieved last (m + 1) (clear_loop last last m (m + m) a)
clear-Sieved last m a two v = record {
  sound = λ k d below e two_d lt lt' h. elim (dec_lt d m) [
    | yes less ↦ v.sound k d below (c.stays k e) two_d less lt' h
    | no equal ↦
        let same : d ≡ m = omega arith in
        let h' : m ∣ k = subst (λ t. t ∣ k) same h in
        cc (e, c.cleared k below (next_multiple m m k (dvd_refl m) h' (omega arith)) h')
  ];
  complete = λ k below none_divides.
      c.kept k (v.complete k below (λ d two_d lt. none_divides d two_d (omega arith)))
        (λ h. none_divides m two (omega arith) (omega (arith, h.0)) h.1);
}
  where
    c : Cleared last m (m + m) a (clear_loop last last m (m + m) a)
    c =
        clear_loop-Cleared last last m (m + m) a (omega arith) (omega arith)
          (dvd-add m (dvd_refl m) (dvd_refl m))

-- A number that is not left has a divisor, whose multiples are not left either.
skip-Sieved :
    (last m : ℕ) (a : ℕ → Bool)
    → 2 ≤ m
    → m ≤ last
    → a m ≡ false
    → Sieved last m a
    → Sieved last (m + 1) a
skip-Sieved last m a two inside composite v = record {
  sound = λ k d below e two_d lt lt' h. elim (dec_lt d m) [
    | yes less ↦ v.sound k d below e two_d less lt' h
    | no equal ↦
        let same : d ≡ m = omega arith in
        let h' : m ∣ k = subst (λ t. t ∣ k) same h in
        cc (
          composite,
          v.complete m inside (λ d' two_d' less less' divides.
              v.sound k d' below e two_d' less (omega arith) (dvd_trans d' divides h')),
        )
  ];
  complete =
      λ k below none_divides. v.complete k below (λ d two_d lt. none_divides d two_d (omega arith));
}

sieve_loop-Sieved :
    (n last m q : ℕ) (a : ℕ → Bool)
    → 2 ≤ m
    → q ≡ n + m
    → q ≤ last + 1
    → Sieved last m a
    → Sieved last q (sieve_loop n last m a)
unfolding sieve_loop
sieve_loop-Sieved zero last m q a two e room v =
    let same : m ≡ q = omega (arith, e) in subst (λ t. Sieved last t a) same v
sieve_loop-Sieved (suc n) last m q a two e room v = elim (Bool-cases (a m)) [
  | inl prime ↦ rw prime (
      sieve_loop-Sieved n last (m + 1) q (clear_loop last last m (m + m) a) (omega arith)
        (omega (arith, e)) room (clear-Sieved last m a two v))
  | inr composite ↦ rw composite (
      sieve_loop-Sieved n last (m + 1) q a (omega arith) (omega (arith, e)) room
        (skip-Sieved last m a two (omega (arith, e)) composite v))
]

-- For `N` at least 1, the entries of `filter_primes<N>()` from 1 to `N` are true at the primes and
-- false at the other numbers.
pub filter_primes_correct :
    (last k : ℕ) → 1 ≤ last → 1 ≤ k → k ≤ last → (filter_primes last k ≡ true) ↔ IsPrime k
unfolding filter_primes
filter_primes_correct last k pos one below = elim (dec_le 2 k) [
  | no small ↦ (λ e. absurd (ground arith), λ h. absurd (omega (arith, h.0)))
  | yes two ↦ (
    λ e. (two, λ d two_d lt. v.sound k d below (ground (arith, e)) two_d (omega arith) lt),
    λ h. ground (arith, v.complete k below (λ d two_d lt lt'. h.1 d two_d lt')),
  )
]
  where
    v : Sieved last (last + 1) (sieve_loop (last - 1) last 2 (λ i. true))
    v =
        sieve_loop-Sieved (last - 1) last 2 (last + 1) (λ i. true) (omega arith) (omega arith)
          (omega arith)
          (record {
            sound = λ i d le e two_d lt lt'. absurd (omega arith);
            complete = λ i le none_divides. refl;
          })
