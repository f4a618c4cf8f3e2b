-- ===== src/Cow/Counted.antt =====
-- The invariant: each count is the number of the objects that point to the cell.
use mod_cpp.Common.{
  ℕ, ◌+◌, ◌-◌, ◌≤◌, ◌<◌, ◌≡◌, ◌≢◌, true, ◌==◌, if◌then◌else◌, update, none, some, is_some, arith,
}
use mod_cpp.Common.RefCount.{refs, refs-update, refs-pos, refs_zero, points}
use mod_cpp.Cow.{Store, set_data}

-- `size` bounds the numbers of the objects.
pub record IsCounted (size : ℕ) (s : Store) : Type 0 where
  pub counted : (m n : ℕ) → s.refcnt m ≡ some n → (n ≡ refs size s.data_of m) × (0 < n)
  pub backed : (i m : ℕ) → s.data_of i ≡ some m → is_some (s.refcnt m) ≡ true
  pub bounded : (i m : ℕ) → s.data_of i ≡ some m → i < size
  pub fresh : (m : ℕ) → s.next ≤ m → s.refcnt m ≡ none

-- `i` lets go of its cell `m` with the count `n`.
abbrev pub dropped : Store → ℕ → ℕ → ℕ → Store
dropped s i m n =
    set_data (record s { refcnt = update s.refcnt m (if n - 1 == 0 then none else some (n - 1)) }) i
      none

-- `i` takes the cell `m` with the count `n` too.
abbrev pub attached : Store → ℕ → ℕ → ℕ → Store
attached s i m n = set_data (record s { refcnt = update s.refcnt m (some (n + 1)) }) i (some m)

-- `i` has a copy of its cell `m`, whose count was `n`.
abbrev pub detached : Store → ℕ → ℕ → ℕ → Store
detached s i m n =
    set_data
      (record s {
        refcnt = update (update s.refcnt s.next (some 1)) m (some (n - 1));
        vec = update s.vec s.next (s.vec m);
        next = s.next + 1;
      })
      i (some s.next)

module _ {size : ℕ} (s : Store) (v : IsCounted size s) where
  pub dropped-IsCounted :
      (i m n : ℕ) → s.data_of i ≡ some m → s.refcnt m ≡ some n → IsCounted size (dropped s i m n)
  dropped-IsCounted i m n e c = record {
    counted = λ m' n' h. ground (
      arith,
      v.counted m' n',
      v.counted m n c,
      refs-update size s.data_of i none m' (v.bounded i m e),
    );
    backed = λ j m' h. ground (
      arith,
      v.backed j m',
      refs-pos size (update s.data_of i none) j m,
      refs-update size s.data_of i none m (v.bounded i m e),
      v.counted m n c,
      v.bounded j m',
    );
    bounded = λ j m' h. ground (arith, v.bounded j m');
    fresh = λ m' h. ground (arith, v.fresh m');
  }

  pub attached-IsCounted :
      (i m n : ℕ)
      → i < size
      → s.data_of i ≡ none
      → s.refcnt m ≡ some n
      → IsCounted size (attached s i m n)
  attached-IsCounted i m n b e c = record {
    counted = λ m' n' h.
        ground
          (arith, v.counted m' n', v.counted m n c, refs-update size s.data_of i (some m) m' b);
    backed = λ k m' h. ground (arith, v.backed k m');
    bounded = λ k m' h. ground (arith, v.bounded k m');
    fresh = λ m' h. ground (arith, v.fresh m');
  }

  -- The next cell has no count and no pointer.
  pub unused : (i : ℕ) → points (s.data_of i) s.next ≡ 0
  unused i = ground (arith, v.backed i s.next, v.fresh s.next)

  -- The copy that `mutable_operation` makes
  pub detached-IsCounted :
      (i m n : ℕ)
      → s.data_of i ≡ some m
      → s.refcnt m ≡ some n
      → n ≢ 1
      → IsCounted size (detached s i m n)
  detached-IsCounted i m n e c d = record {
    counted = λ m' n' h. ground (
      arith,
      v.counted m' n',
      v.counted m n c,
      v.fresh m,
      new_refs,
      refs-update size s.data_of i (some s.next) m' b,
    );
    backed = λ k m' h. ground (arith, v.backed k m');
    bounded = λ k m' h. ground (arith, b, v.bounded k m');
    fresh = λ m' h. ground (arith, v.fresh m', v.fresh m);
  }
    where
      b : i < size
      b = v.bounded i m e

      new_refs : refs size s.data_of s.next ≡ 0
      new_refs = refs_zero size s.data_of s.next unused

  -- A cell with count 1 has one pointer.
  pub sole : (i j m : ℕ) → s.data_of i ≡ some m → s.refcnt m ≡ some 1 → j ≢ i → s.data_of j ≢ some m
  sole i j m e c d h = ground (
    arith,
    v.counted m 1 c,
    v.bounded j m h,
    refs-update size s.data_of i none m (v.bounded i m e),
    refs-pos size (update s.data_of i none) j m (v.bounded j m h),
  )
