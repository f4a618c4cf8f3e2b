-- ===== src/Iterator/Scan.antt =====
-- The two inner loops stop at the first element on the wrong side, inside the array.
use mod_cpp.Common.{ℕ, zero, suc, ◌+◌, ◌≤◌, ◌<◌, ◌≢◌, Bool-cases, inl, inr, ltb, arith}
use mod_cpp.Common.Outcome.{Returns, Returns-map}
use mod_cpp.Iterator.{scan_up, scan_down}

-- The scan from `i` stops at `j`.
pub record Up (d : ℕ → ℕ) (pivot i stop j : ℕ) : Type 0 where
  pub from : i ≤ j
  pub inside : j ≤ stop
  pub large : pivot ≤ d j
  pub passed : (k : ℕ) → i ≤ k → k < j → d k < pivot

pub scan_up_correct :
    (d : ℕ → ℕ) (pivot k i stop : ℕ)
    → i ≤ stop
    → stop < i + k
    → pivot ≤ d stop
    → Returns (Up d pivot i stop) (scan_up d pivot k i)
unfolding scan_up
scan_up_correct d pivot zero i stop h l p = absurd (omega arith)
scan_up_correct d pivot (suc k) i stop h l p = elim (Bool-cases (ltb (d i) pivot)) [
  | inl e ↦ rw e (
      Returns-map _ _ (scan_up d pivot k (i + 1))
        (scan_up_correct d pivot k (i + 1) stop (further (ground arith)) (omega arith) p)
        (λ j r. record {
          from = omega (arith, r.from);
          inside = r.inside;
          large = r.large;
          passed = λ m a b. ground (arith, r.passed m);
        }))
  | inr e ↦ rw e (record {
    from = omega arith;
    inside = h;
    large = ground arith;
    passed = λ m a b. absurd (omega arith);
  })
]
  where
    further : d i ≢ d stop → i + 1 ≤ stop
    further e = ground arith

pub record Down (d : ℕ → ℕ) (pivot right stop j : ℕ) : Type 0 where
  pub below : j < right
  pub inside : stop ≤ j
  pub small : d j ≤ pivot
  pub passed : (k : ℕ) → j < k → k < right → pivot < d k

pub scan_down_correct :
    (d : ℕ → ℕ) (pivot right stop : ℕ)
    → stop < right
    → d stop ≤ pivot
    → Returns (Down d pivot right stop) (scan_down d pivot right)
unfolding scan_down
scan_down_correct d pivot zero stop h p = absurd (omega arith)
scan_down_correct d pivot (suc i) stop h p = elim (Bool-cases (ltb pivot (d i))) [
  | inl e ↦ rw e (
      Returns-map _ _ (scan_down d pivot i)
        (scan_down_correct d pivot i stop (nearer (ground arith)) p)
        (λ j r. record {
          below = omega (arith, r.below);
          inside = r.inside;
          small = r.small;
          passed = λ m a b. ground (arith, r.passed m);
        }))
  | inr e ↦ rw e (record {
    below = omega arith;
    inside = omega arith;
    small = ground arith;
    passed = λ m a b. absurd (omega arith);
  })
]
  where
    nearer : d i ≢ d stop → stop < i
    nearer e = ground arith
