-- ===== src/RuleOfFive/Tests.antt =====
-- An object on an empty store, its copy, and what a move leaves to the destructor.
use mod_cpp.Common.{ℕ, ◌≡◌, refl, true, false, update, Option, none, some, arith}
use mod_cpp.Common.Outcome.{Outcome, ok, ◌>>=◌, Returns}
use mod_cpp.RuleOfFive.{
  Store, RDerived, Constructed, made, threw, construct, copy_construct, move_construct, destroy,
}
use mod_cpp.RuleOfFive.Safety.{Outcomes, copy_construct_safe}

-- Descriptors 0, 1 and 2 are the standard streams.
abbrev first : Store ℕ
first = record {
  heap = update (update (λ i. none) 10 (some 7)) 11 (some 8);
  is_open = update (update (update (λ i. false) 0 true) 1 true) 2 true;
}

abbrev owner : RDerived
owner = record { data_at = some 10; derived_data = some 11; sockfd = 3 }

-- `ro5_routine`: the object is made and destroyed, or the exception is caught.
abbrev finish : Store ℕ × Constructed → Outcome (Store ℕ)
unfolding destroy
finish (s, threw e) = ok s
finish (s, made x) = destroy 0 s x

abbrev ro5_routine : Store ℕ → ℕ → ℕ → Option ℕ → Outcome (Store ℕ)
unfolding construct
ro5_routine s a b sock = construct 0 s a b sock >>= finish

ro5_routine_returns :
    Returns (λ s. (s.heap 20 ≡ none) × (s.is_open 3 ≡ false)) (ro5_routine first 20 21 (some 3))
unfolding construct destroy
ro5_routine_returns = (refl, refl)

-- What is left of an object that was moved has descriptor 0, which its destructor closes.
moved_closes_stdin :
    Returns (λ s. s.is_open 0 ≡ false) (destroy 0 first (move_construct {T = ℕ} 0 owner).1)
unfolding destroy move_construct
moved_closes_stdin = refl

copy_construct_safe_example :
    Returns (Outcomes first 7 8 none) (copy_construct 0 first owner 20 21 none)
copy_construct_safe_example =
    copy_construct_safe 0 first owner 10 11 7 8 20 21 none refl refl refl refl
      (record { first = refl; second = refl; apart = omega arith; closed = λ fd e. absurd cc })
