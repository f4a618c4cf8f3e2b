-- ===== src/Iterator/Partition.antt =====
-- The partition puts the smaller elements first, and both parts are shorter.
use mod_cpp.Common.{
  ℕ, zero, suc, ◌+◌, ◌-◌, ◌≤◌, ◌<◌, ◌≡◌, ◌⊎◌, refl, subst, sym, Bool-cases, inl, inr, true, false,
  ltb, leb, arith,
}
use mod_cpp.Common.Outcome.{ok, Returns, Returns-bind, Returns-map}
use mod_cpp.Iterator.{swap, scan_up, scan_down, partition}
use mod_cpp.Iterator.Scan.{Up, Down, scan_up_correct, scan_down_correct}
use mod_cpp.Iterator.Sorted.{Rearranged, same-Rearranged, Rearranged-trans, swap-Rearranged}

module _ (n first last pivot : ℕ) where
  -- What the partition of `d` leaves: the index `right` and the array.
  pub record Parted (d : ℕ → ℕ) (q : ℕ × (ℕ → ℕ)) : Type 0 where
    pub rearranged : Rearranged n first last d q.1
    pub from : first ≤ q.0
    pub shorter : q.0 + 1 < last
    pub low : (k : ℕ) → first ≤ k → k ≤ q.0 → q.1 k ≤ pivot
    pub high : (k : ℕ) → q.0 < k → k < last → pivot ≤ q.1 k

  -- Between two rounds: what was passed is on its side, and on both ways there is an element to stop at.
  record Between (next right : ℕ) (d : ℕ → ℕ) : Type 0 where
    started : first ≤ next
    ended : right ≤ last
    low : (k : ℕ) → first ≤ k → k < next → d k ≤ pivot
    high : (k : ℕ) → right ≤ k → k < last → pivot ≤ d k
    up_stop : ℕ
    up_from : next ≤ up_stop
    up_inside : up_stop < last
    up_large : pivot ≤ d up_stop
    down_stop : ℕ
    down_from : first ≤ down_stop
    down_inside : down_stop < right
    down_small : d down_stop ≤ pivot
    begun : ((next ≡ first) × (d first ≡ pivot)) ⊎ (right < last)

  module _ (two : first + 1 < last) (fits : last ≤ n) where
    next-Between :
        (next right i j : ℕ) (d : ℕ → ℕ)
        → (b : Between next right d) → Up d pivot next b.up_stop i
        → Down d pivot right b.down_stop j
        → i < j
        → Between (i + 1) j (swap d i j)
    next-Between next right i j d b u w l = record {
      started = omega (arith, b.started, u.from);
      ended = omega (arith, w.below, b.ended);
      low = λ k c e. ground (arith, b.low k, u.passed k, w.small, u.large);
      high = λ k c e. ground (arith, b.high k, w.passed k, u.large);
      up_stop = j;
      up_from = omega arith;
      up_inside = omega (arith, w.below, b.ended);
      up_large = ground (arith, u.large);
      down_stop = i;
      down_from = omega (arith, b.started, u.from);
      down_inside = l;
      down_small = ground (arith, w.small);
      begun = inr (omega (arith, w.below, b.ended));
    }

    done-Parted :
        (next right i j : ℕ) (d : ℕ → ℕ)
        → (b : Between next right d) → Up d pivot next b.up_stop i
        → Down d pivot right b.down_stop j
        → j ≤ i
        → Parted d (j, d)
    done-Parted next right i j d b u w l = record {
      rearranged = same-Rearranged d;
      from = omega (arith, w.inside, b.down_from);
      shorter = elim b.begun [
        | inl (e, p) ↦ ground (arith, u.passed first)
        | inr h ↦ omega (arith, w.below)
      ];
      low = λ k c e. ground (arith, b.low k, u.passed k, w.small);
      high = λ k c e. ground (arith, b.high k, w.passed k);
    }

    finished :
        (fuel next right : ℕ) (d : ℕ → ℕ)
        → 0 < fuel
        → right < next
        → partition n fuel pivot next right d ≡ ok (right, d)
    unfolding partition
    finished zero next right d f h = absurd (omega arith)
    finished (suc fuel) next right d f h = rw crossed refl
      where
        crossed : leb next right ≡ false
        crossed = ground arith

    swapped-Parted :
        (d : ℕ → ℕ) (i j : ℕ) (q : ℕ × (ℕ → ℕ))
        → first ≤ i
        → i < last
        → first ≤ j
        → j < last
        → Parted (swap d i j) q
        → Parted d q
    swapped-Parted d i j q a b a' b' p = record {
      rearranged = Rearranged-trans (swap-Rearranged d i j a b a' b' fits) p.rearranged;
      from = p.from;
      shorter = p.shorter;
      low = p.low;
      high = p.high;
    }

    partition_rounds :
        (fuel next right : ℕ) (d : ℕ → ℕ)
        → last + 1 < next + fuel
        → next ≤ right
        → Between next right d
        → Returns (Parted d) (partition n fuel pivot next right d)
    unfolding partition
    partition_rounds zero next right d f l b = absurd (omega (arith, b.up_from, b.up_inside))
    partition_rounds (suc fuel) next right d f l b = rw entered (
        Returns-bind (Up d pivot next b.up_stop) _ (scan_up d pivot (n - next) next) _
          (scan_up_correct d pivot (n - next) next b.up_stop b.up_from (omega (arith, b.up_inside))
            b.up_large)
          (λ i u.
            Returns-bind (Down d pivot right b.down_stop) _ (scan_down d pivot right) _
              (scan_down_correct d pivot right b.down_stop b.down_inside b.down_small)
              (λ j w. elim (Bool-cases (ltb i j)) [
                | inl e ↦ rw e (
                    Returns-map _ _ (partition n fuel pivot (i + 1) j (swap d i j))
                      (partition_rounds fuel (i + 1) j (swap d i j) (omega (arith, u.from))
                        (ground arith) (next-Between next right i j d b u w (ground arith)))
                      (λ q p.
                        swapped-Parted d i j q (omega (arith, u.from, b.started))
                          (omega (arith, u.inside, b.up_inside))
                          (omega (arith, w.inside, b.down_from)) (omega (arith, w.below, b.ended))
                          p))
                | inr e ↦ rw e (
                    subst (Returns (Parted d))
                      (sym (
                        finished fuel (i + 1) j d (omega (arith, b.up_from, b.up_inside))
                          (ground arith)))
                      (done-Parted next right i j d b u w (ground arith)))
              ])))
      where
        entered : leb next right ≡ true
        entered = ground arith

    pub partition_correct :
        (d : ℕ → ℕ) → d first ≡ pivot → Returns (Parted d) (partition n (n + 2) pivot first last d)
    partition_correct d e =
        partition_rounds (n + 2) first last d (omega arith) (omega arith) (record {
          started = omega arith;
          ended = omega arith;
          low = λ k c h. absurd (omega arith);
          high = λ k c h. absurd (omega arith);
          up_stop = first;
          up_from = omega arith;
          up_inside = omega arith;
          up_large = omega arith;
          down_stop = first;
          down_from = omega arith;
          down_inside = omega arith;
          down_small = omega arith;
          begun = inl (refl, e);
        })
