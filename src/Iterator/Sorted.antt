-- ===== src/Iterator/Sorted.antt =====
-- Rearranging a part of an array.
use mod_cpp.Common.{
  ℕ, zero, suc, ◌+◌, ◌≤◌, ◌<◌, ◌≡◌, refl, ◌∙◌, ◌==◌, if◌then◌else◌, update, arith, dec_lt, dec_le,
}
use mod_cpp.Iterator.{swap}

-- How often `v` stands at the indices below `n`.
unfoldable pub occurs : ℕ → (ℕ → ℕ) → ℕ → ℕ
occurs zero d v = 0
occurs (suc n) d v = (if d n == v then 1 else 0) + occurs n d v

occurs-update_above :
    (n : ℕ) (d : ℕ → ℕ) (i a v : ℕ) → n ≤ i → occurs n (update d i a) v ≡ occurs n d v
unfolding occurs
occurs-update_above zero d i a v h = refl
occurs-update_above (suc n) d i a v h = ground (arith, occurs-update_above n d i a v)

occurs-update :
    (n : ℕ) (d : ℕ → ℕ) (i a v : ℕ)
    → i < n
    → occurs n (update d i a) v + (if d i == v then 1 else 0)
      ≡ occurs n d v + (if a == v then 1 else 0)
unfolding occurs
occurs-update zero d i a v h = absurd (omega arith)
occurs-update (suc n) d i a v h =
    ground (arith, occurs-update n d i a v, occurs-update_above n d i a v)

occurs-swap :
    (n : ℕ) (d : ℕ → ℕ) (i j v : ℕ) → i < n → j < n → occurs n (swap d i j) v ≡ occurs n d v
occurs-swap n d i j v h k =
    ground (arith, occurs-update n d i (d j) v h, occurs-update n (update d i (d j)) j (d i) v k)

-- Below `n`, the items of `d'` are those of `d`, as often; outside of [first, last) nothing moved, and
-- inside the same bounds hold.
pub record Rearranged (n first last : ℕ) (d d' : ℕ → ℕ) : Type 0 where
  pub before : (k : ℕ) → k < first → d' k ≡ d k
  pub after : (k : ℕ) → last ≤ k → d' k ≡ d k
  pub over :
      (lo : ℕ)
      → ((k : ℕ) → first ≤ k → k < last → lo ≤ d k)
      → (k : ℕ) → first ≤ k
      → k < last
      → lo ≤ d' k
  pub under :
      (hi : ℕ)
      → ((k : ℕ) → first ≤ k → k < last → d k ≤ hi)
      → (k : ℕ) → first ≤ k
      → k < last
      → d' k ≤ hi
  pub counts : (v : ℕ) → occurs n d' v ≡ occurs n d v

module _ {n first last : ℕ} where
  pub same-Rearranged : (d : ℕ → ℕ) → Rearranged n first last d d
  same-Rearranged d = record {
    before = λ k h. refl;
    after = λ k h. refl;
    over = λ lo h. h;
    under = λ hi h. h;
    counts = λ v. refl;
  }

  pub Rearranged-trans :
      {d e f : ℕ → ℕ}
      → Rearranged n first last d e
      → Rearranged n first last e f
      → Rearranged n first last d f
  Rearranged-trans r s = record {
    before = λ k h. s.before k h ∙ r.before k h;
    after = λ k h. s.after k h ∙ r.after k h;
    over = λ lo h. s.over lo (r.over lo h);
    under = λ hi h. s.under hi (r.under hi h);
    counts = λ v. s.counts v ∙ r.counts v;
  }

  pub swap-Rearranged :
      (d : ℕ → ℕ) (i j : ℕ)
      → first ≤ i
      → i < last
      → first ≤ j
      → j < last
      → last ≤ n
      → Rearranged n first last d (swap d i j)
  swap-Rearranged d i j a b a' b' l = record {
    before = λ k h. ground arith;
    after = λ k h. ground arith;
    over = λ lo h k c e. ground (arith, h i a b, h j a' b', h k c e);
    under = λ hi h k c e. ground (arith, h i a b, h j a' b', h k c e);
    counts = λ v. occurs-swap n d i j v (omega arith) (omega arith);
  }

  pub Rearranged-widen :
      (first' last' : ℕ) {d e : ℕ → ℕ}
      → first' ≤ first
      → last ≤ last'
      → Rearranged n first last d e
      → Rearranged n first' last' d e
  Rearranged-widen first' last' {d} {e} a b r = record {
    before = λ k h. r.before k (omega arith);
    after = λ k h. r.after k (omega arith);
    over = λ lo h k c g. elim (dec_lt k first) [
      | yes l ↦ rw (r.before k l) (h k c g)
      | no l ↦ elim (dec_le last k) [
        | yes m ↦ rw (r.after k m) (h k c g)
        | no m ↦ r.over lo (λ i x y. h i (omega arith) (omega arith)) k (omega arith) (omega arith)
      ]
    ];
    under = λ hi h k c g. elim (dec_lt k first) [
      | yes l ↦ rw (r.before k l) (h k c g)
      | no l ↦ elim (dec_le last k) [
        | yes m ↦ rw (r.after k m) (h k c g)
        | no m ↦ r.under hi (λ i x y. h i (omega arith) (omega arith)) k (omega arith) (omega arith)
      ]
    ];
    counts = r.counts;
  }
