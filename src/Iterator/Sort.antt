-- ===== src/Iterator/Sort.antt =====
-- `ministl_sort` sorts.
use mod_cpp.Common.{
  ℕ, zero, suc, ◌+◌, ◌≤◌, ◌<◌, ◌≡◌, refl, Bool-cases, inl, inr, leb, arith, dec_lt, dec_le,
}
use mod_cpp.Common.Outcome.{Returns, Returns-bind, Returns-map}
use mod_cpp.Iterator.{partition, ministl_sort}
use mod_cpp.Iterator.Sorted.{Rearranged, same-Rearranged, Rearranged-trans, Rearranged-widen}
use mod_cpp.Iterator.Partition.{Parted, partition_correct}

-- The elements from `first` to before `last` are in order.
unfoldable pub IsOrdered : ℕ → ℕ → (ℕ → ℕ) → Type 0
IsOrdered first last d = (k : ℕ) → first ≤ k → k + 1 < last → d k ≤ d (k + 1)

pub record Sorts (n first last : ℕ) (d d' : ℕ → ℕ) : Type 0 where
  pub ordered : IsOrdered first last d'
  pub rearranged : Rearranged n first last d d'

-- Two ordered parts with a pivot between them are ordered.
join-Sorts :
    (n first mid last pivot : ℕ) (d d1 d2 d3 : ℕ → ℕ) (right : ℕ)
    → mid ≡ right + 1
    → Parted n first last pivot d (right, d1)
    → Sorts n first mid d1 d2
    → Sorts n mid last d2 d3
    → Sorts n first last d d3
unfolding IsOrdered
join-Sorts n first mid last pivot d d1 d2 d3 right e p l r = record {
  ordered = λ k a b. elim (dec_lt (k + 1) mid) [
    | yes h ↦ ground (arith, r.rearranged.before k, r.rearranged.before (k + 1), l.ordered k)
    | no h ↦ elim (dec_le mid k) [
      | yes g ↦ r.ordered k g b
      | no g ↦ ground (
        arith,
        r.rearranged.before k,
        small k (omega arith) (omega arith),
        large (k + 1) (omega arith) b,
      )
    ]
  ];
  rearranged = Rearranged-trans p.rearranged (
      Rearranged-trans
        (Rearranged-widen first last (omega arith) (omega (arith, p.shorter)) l.rearranged)
        (Rearranged-widen first last (omega (arith, p.from)) (omega arith) r.rearranged));
}
  where
    small : (k : ℕ) → first ≤ k → k < mid → d2 k ≤ pivot
    small k a b = l.rearranged.under pivot (λ i x y. p.low i x (omega arith)) k a b

    large : (k : ℕ) → mid ≤ k → k < last → pivot ≤ d3 k
    large k a b =
        r.rearranged.over pivot (λ i x y. rw (l.rearranged.after i x) (p.high i (omega arith) y)) k
          a b

sort_from :
    (fuel n first last : ℕ) (d : ℕ → ℕ)
    → last ≤ n
    → 0 < fuel
    → last < first + fuel
    → Returns (Sorts n first last d) (ministl_sort n fuel first last d)
unfolding ministl_sort IsOrdered
sort_from zero n first last d b z f = absurd (omega arith)
sort_from (suc fuel) n first last d b z f = elim (Bool-cases (leb last (first + 1))) [
  | inl h ↦ rw h (record {
    ordered = λ k a e. absurd (short k (ground arith) a e);
    rearranged = same-Rearranged d;
  })
  | inr h ↦ rw h (
      Returns-bind (Parted n first last (d first) d) _ (partition n (n + 2) (d first) first last d)
        _ (partition_correct n first last (d first) (ground arith) b d refl)
        (λ (right, d1) p.
          Returns-bind (Sorts n first (right + 1) d1) _ (ministl_sort n fuel first (right + 1) d1) _
            (sort_from fuel n first (right + 1) d1 (omega (arith, p.shorter))
              (omega (arith, p.shorter, p.from)) (omega (arith, p.shorter)))
            (λ d2 l.
              Returns-map _ _ (ministl_sort n fuel (right + 1) last d2)
                (sort_from fuel n (right + 1) last d2 b (omega (arith, p.shorter, p.from))
                  (omega (arith, p.from)))
                (λ d3 r.
                  join-Sorts n first (right + 1) last (d first) d d1 d2 d3 right refl p l r))))
]
  where
    short : (k : ℕ) → last ≤ first + 1 → first ≤ k → k + 1 < last → ⊥
    short k h a e = omega arith

-- On any part of an array `ministl_sort` comes to an end, at a depth of at most `last + 1` calls, and no
-- scan leaves the array. The part is in order then, the items are the same, as often, and nothing outside
-- of the part has changed.
pub ministl_sort_correct :
    (n first last : ℕ) (d : ℕ → ℕ)
    → last ≤ n
    → Returns (Sorts n first last d) (ministl_sort n (suc last) first last d)
ministl_sort_correct n first last d b =
    sort_from (suc last) n first last d b (omega arith) (omega arith)
