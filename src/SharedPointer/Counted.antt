-- ===== src/SharedPointer/Counted.antt =====
-- The invariant: each count is the number of shared pointers that hold the cell.
use mod_cpp.Common.{
  ℕ, ◌+◌, ◌≤◌, ◌<◌, ◌≡◌, ◌≢◌, ap, true, update, Option, none, some, is_some, List, dec_lt, arith,
}
use mod_cpp.Common.RefCount.{refs, refs-update, refs-update_above, refs-pos, points}
use mod_cpp.SharedPointer.{Store, set_fields, decrease_count, take_over}

-- `size` bounds the numbers of the shared pointers.
pub record IsCounted (size : ℕ) (s : Store) : Type 0 where
  pub counted : (m n : ℕ) → s.refcnt m ≡ some n → (n ≡ refs size s.sp_metadata m) × (0 < n)
  pub backed : (i m : ℕ) → s.sp_metadata i ≡ some m → is_some (s.refcnt m) ≡ true
  pub paired : (i : ℕ) → is_some (s.sp_data i) ≡ is_some (s.sp_metadata i)
  pub same_data :
      (i j m : ℕ) → s.sp_metadata i ≡ some m → s.sp_metadata j ≡ some m → s.sp_data i ≡ s.sp_data j
  pub same_cell :
      (i j p : ℕ) → s.sp_data i ≡ some p → s.sp_data j ≡ some p → s.sp_metadata i ≡ s.sp_metadata j
  pub living : (i p : ℕ) → s.sp_data i ≡ some p → s.alive p ≡ true
  pub bounded : (i m : ℕ) → s.sp_metadata i ≡ some m → i < size
  pub fresh : (m : ℕ) → s.next ≤ m → s.refcnt m ≡ none

-- The store after `i` has let go of the value `p` with the cell `m` of count `n`.
abbrev pub dropped : Store → ℕ → ℕ → ℕ → ℕ → Store
dropped s i p m n = set_fields (decrease_count s i p m n) i none none

module _ {size : ℕ} (s : Store) (v : IsCounted size s) where
  pub dropped-IsCounted :
      (i p m n : ℕ)
      → s.sp_data i ≡ some p
      → s.sp_metadata i ≡ some m
      → s.refcnt m ≡ some n
      → IsCounted size (dropped s i p m n)
  unfolding decrease_count
  dropped-IsCounted i p m n d e c = record {
    counted = λ m' n' h. ground (
      arith,
      v.counted m' n',
      v.counted m n c,
      refs-update size s.sp_metadata i none m' (v.bounded i m e),
    );
    backed = λ j m' h. ground (
      arith,
      v.backed j m',
      refs-pos size (update s.sp_metadata i none) j m,
      refs-update size s.sp_metadata i none m (v.bounded i m e),
      v.counted m n c,
      v.bounded j m',
    );
    paired = λ j. ground (arith, v.paired j);
    same_data = λ j k m' h h'. ground (arith, v.same_data j k m');
    same_cell = λ j k q h h'. ground (arith, v.same_cell j k q);
    living = λ j q h. ground (
      arith,
      v.living j q,
      v.same_cell i j p,
      refs-pos size (update s.sp_metadata i none) j m,
      refs-update size s.sp_metadata i none m (v.bounded i m e),
      v.counted m n c,
      v.bounded j m,
    );
    bounded = λ j m' h. ground (arith, v.bounded j m');
    fresh = λ m' h. ground (arith, v.fresh m');
  }

  pub attach-IsCounted :
      (i j p m n : ℕ)
      → i < size
      → s.sp_metadata i ≡ none
      → s.sp_data j ≡ some p
      → s.sp_metadata j ≡ some m
      → s.refcnt m ≡ some n
      → IsCounted size
          (record (set_fields s i (some p) (some m)) { refcnt = update s.refcnt m (some (n + 1)) })
  attach-IsCounted i j p m n b e d f c = record {
    counted = λ m' n' h.
        ground
          (arith, v.counted m' n', v.counted m n c, refs-update size s.sp_metadata i (some m) m' b);
    backed = λ k m' h. ground (arith, v.backed k m');
    paired = λ k. ground (arith, v.paired k);
    same_data =
        λ k l m' h h'. ground (arith, v.same_data k l m', v.same_data k j m', v.same_data j l m');
    same_cell =
        λ k l q h h'. ground (arith, v.same_cell k l q, v.same_cell k j q, v.same_cell j l q);
    living = λ k q h. ground (arith, v.living k q, v.living j q);
    bounded = λ k m' h. ground (arith, v.bounded k m');
    fresh = λ m' h. ground (arith, v.fresh m');
  }

  -- A pointer that holds nothing has a null cell too, so that nothing changes when its fields are unset.
  pub unset-IsCounted : (i : ℕ) → s.sp_data i ≡ none → IsCounted size (set_fields s i none none)
  unset-IsCounted i d = record {
    counted = λ m' n' h. ground (arith, v.counted m' n', same_refs m');
    backed = λ k m' h. ground (arith, v.backed k m');
    paired = λ k. ground (arith, v.paired k);
    same_data = λ k l m' h h'. ground (arith, v.same_data k l m');
    same_cell = λ k l q h h'. ground (arith, v.same_cell k l q);
    living = λ k q h. ground (arith, v.living k q);
    bounded = λ k m' h. ground (arith, v.bounded k m');
    fresh = λ m' h. ground (arith, v.fresh m');
  }
    where
      same : (k : ℕ) → update s.sp_metadata i none k ≡ s.sp_metadata k
      same k = ground (arith, v.paired i)

      same_refs : (c : ℕ) → refs size (update s.sp_metadata i none) c ≡ refs size s.sp_metadata c
      same_refs c = ap (λ g. refs size g c) (λ t k. same k t)

  -- The fields of `j` move to `i`, which held nothing.
  pub move-IsCounted :
      (i j : ℕ) → i ≢ j → i < size → s.sp_data i ≡ none → IsCounted size (take_over s i j)
  unfolding take_over
  move-IsCounted i j d b u = record {
    counted = λ m' n' h. ground (arith, v.counted m' n', moved_refs m');
    backed = λ k m' h. ground (arith, v.backed k m', v.backed j m');
    paired = λ k. ground (arith, v.paired k, v.paired j);
    same_data =
        λ k l m' h h'. ground (arith, v.same_data k l m', v.same_data k j m', v.same_data j l m');
    same_cell =
        λ k l q h h'. ground (arith, v.same_cell k l q, v.same_cell k j q, v.same_cell j l q);
    living = λ k q h. ground (arith, v.living k q, v.living j q);
    bounded = λ k m' h. ground (arith, v.bounded k m');
    fresh = λ m' h. ground (arith, v.fresh m');
  }
    where
      held : (c : ℕ) → points (s.sp_metadata i) c ≡ 0
      held c = ground (arith, v.paired i)

      kept :
          (c : ℕ)
          → points (update s.sp_metadata i (s.sp_metadata j) j) c ≡ points (s.sp_metadata j) c
      kept c = ground arith

      inside : (c : ℕ) → (0 < points (s.sp_metadata j) c) → j < size
      inside c h = ground (arith, v.bounded j c)

      moved_refs :
          (c : ℕ)
          → refs size (update (update s.sp_metadata i (s.sp_metadata j)) j none) c
            ≡ refs size s.sp_metadata c
      moved_refs c = elim (dec_lt j size) [
        | yes h ↦ ground (
          arith,
          held c,
          kept c,
          refs-update size s.sp_metadata i (s.sp_metadata j) c b,
          refs-update size (update s.sp_metadata i (s.sp_metadata j)) j none c h,
        )
        | no h ↦ ground (
          arith,
          held c,
          inside c,
          refs-update size s.sp_metadata i (s.sp_metadata j) c b,
          refs-update_above size (update s.sp_metadata i (s.sp_metadata j)) j none c,
        )
      ]

-- The weak pointers do not count.
pub weak-IsCounted :
    (size : ℕ) (s : Store) (w : ℕ → List ℕ) (wp : ℕ → Option ℕ)
    → IsCounted size s
    → IsCounted size (record s { weak_ptr_set = w; wp_shared = wp })
weak-IsCounted size s w wp v = record {
  counted = v.counted;
  backed = v.backed;
  paired = v.paired;
  same_data = v.same_data;
  same_cell = v.same_cell;
  living = v.living;
  bounded = v.bounded;
  fresh = v.fresh;
}
