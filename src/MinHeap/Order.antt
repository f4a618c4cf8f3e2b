-- ===== src/MinHeap/Order.antt =====
-- `down` and `up` put the array in heap order.
use mod_cpp.Common.{
  ℕ, zero, suc, ◌+◌, ◌*◌, ◌/◌, ◌≤◌, ◌<◌, ◌≡◌, ◌≢◌, Bool-cases, inl, inr, ltb, ◌==◌, arith,
}
use mod_cpp.Common.Outcome.{Returns, Returns-bind}
use mod_cpp.MinHeap.{swap, min_val_pos, down_from, down, up_from, build_loop}

-- No node has a greater father, where the father is `lo` or behind it.
unfoldable pub IsOrdered : ℕ → ℕ → (ℕ → ℕ) → Type 0
IsOrdered lo last d = (i : ℕ) → lo ≤ i / 2 → i ≤ last → d (i / 2) ≤ d i

-- This may fail at the sons of `root`, but not between them and the father of `root`.
pub record IsOrderedBut (lo last root : ℕ) (d : ℕ → ℕ) : Type 0 where
  pub others : (i : ℕ) → lo ≤ i / 2 → i ≤ last → i / 2 ≢ root → d (i / 2) ≤ d i
  pub across : (i : ℕ) → lo ≤ root / 2 → i ≤ last → i / 2 ≡ root → d (root / 2) ≤ d i

module _ (lo last : ℕ) (lo_pos : 0 < lo) where
  stop :
      (root : ℕ) (d : ℕ → ℕ)
      → IsOrderedBut lo last root d
      → min_val_pos d last root ≡ root
      → IsOrdered lo last d
  unfolding IsOrdered
  stop root d v e i b h = ground (arith, v.others i b h)

  -- The index that `down` goes to is that of the least son.
  chosen :
      (root : ℕ) (d : ℕ → ℕ)
      → 0 < root
      → min_val_pos d last root ≢ root
      → (min_val_pos d last root / 2 ≡ root)
        × (min_val_pos d last root ≤ last)
        × (root < min_val_pos d last root)
        × (d (min_val_pos d last root) ≤ d root)
  chosen root d b e = (ground arith, ground arith, ground arith, ground arith)

  least :
      (root : ℕ) (d : ℕ → ℕ) (i : ℕ) → i / 2 ≡ root → i ≤ last → d (min_val_pos d last root) ≤ d i
  least root d i h b = elim (Bool-cases (i == root * 2)) [
    | inl e ↦ even (ground arith)
    | inr e ↦ odd (ground arith)
  ]
    where
      even : i ≡ root * 2 → d (min_val_pos d last root) ≤ d i
      even e = ground arith

      odd : i ≡ root * 2 + 1 → d (min_val_pos d last root) ≤ d i
      odd e = ground arith

  sunk :
      (root p : ℕ) (d : ℕ → ℕ)
      → lo ≤ root
      → IsOrderedBut lo last root d
      → p / 2 ≡ root
      → p ≤ last
      → root < p
      → d p ≤ d root
      → ((i : ℕ) → i / 2 ≡ root → i ≤ last → d p ≤ d i)
      → IsOrderedBut lo last p (swap d root p)
  sunk root p d b v e1 e2 e3 e4 e5 = record {
    others = λ i c h n. ground (arith, v.others i c h, v.across p, e5 i);
    across = λ i c h n. ground (arith, v.others i);
  }

  sink :
      (root : ℕ) (d : ℕ → ℕ)
      → lo ≤ root
      → IsOrderedBut lo last root d
      → min_val_pos d last root ≢ root
      → IsOrderedBut lo last (min_val_pos d last root) (swap d root (min_val_pos d last root))
  sink root d b v e =
      let (c1, c2, c3, c4) = chosen root d (omega arith) e in
      sunk root (min_val_pos d last root) d b v c1 c2 c3 c4 (least root d)

  pub down_from-IsOrdered :
      (fuel root : ℕ) (d : ℕ → ℕ)
      → lo ≤ root
      → 0 < fuel
      → last < root + fuel
      → IsOrderedBut lo last root d
      → Returns (IsOrdered lo last) (down_from fuel last root d)
  unfolding down_from
  down_from-IsOrdered zero root d b p f v = absurd (omega arith)
  down_from-IsOrdered (suc fuel) root d b p f v =
      elim (Bool-cases (min_val_pos d last root == root)) [
        | inl e ↦ rw e (stop root d v (ground arith))
        | inr e ↦ rw e (
            down_from-IsOrdered fuel (min_val_pos d last root)
              (swap d root (min_val_pos d last root)) (ground arith) (ground arith) (ground arith)
              (sink root d b v (ground arith)))
      ]

-- No node but `root` has a greater father, and the sons of `root` are not less than its father.
pub record IsOrderedButAt (last root : ℕ) (d : ℕ → ℕ) : Type 0 where
  pub others : (i : ℕ) → 1 ≤ i / 2 → i ≤ last → i ≢ root → d (i / 2) ≤ d i
  pub across : (i : ℕ) → 1 ≤ root / 2 → i ≤ last → i / 2 ≡ root → d (root / 2) ≤ d i

rise :
    (last root : ℕ) (d : ℕ → ℕ)
    → 1 < root
    → root ≤ last
    → IsOrderedButAt last root d
    → d root < d (root / 2)
    → IsOrderedButAt last (root / 2) (swap d (root / 2) root)
rise last root d b r v e = record {
  others = λ i c h n. ground (arith, v.others i c h, v.others root, v.across i);
  across = λ i c h n. ground (arith, v.others i, v.others (root / 2), v.others root);
}

pub up_from-IsOrdered :
    (fuel last root : ℕ) (d : ℕ → ℕ)
    → 0 < root
    → root ≤ last
    → root ≤ fuel
    → IsOrderedButAt last root d
    → Returns (IsOrdered 1 last) (up_from fuel root d)
unfolding up_from IsOrdered
up_from-IsOrdered zero last root d b r f v = absurd (omega arith)
up_from-IsOrdered (suc fuel) last root d b r f v = elim (Bool-cases (root == 1)) [
  | inl e ↦ rw e (λ i c h. ground (arith, v.others i c h))
  | inr e ↦ rw e (elim (Bool-cases (ltb (d root) (d (root / 2)))) [
    | inl g ↦ rw g (
        up_from-IsOrdered fuel last (root / 2) (swap d (root / 2) root) (ground arith) (omega arith)
          (ground arith) (rise last root d (ground arith) r v (ground arith)))
    | inr g ↦ rw g (λ i c h. ground (arith, v.others i c h))
  ])
]

start :
    (i last : ℕ) (d : ℕ → ℕ) → IsOrdered (suc i + 1) last d → IsOrderedBut (i + 1) last (suc i) d
unfolding IsOrdered
start i last d v = record {
  others = λ j c h n. v j (omega arith) h;
  across = λ j c h n. absurd (omega arith);
}

pub build_loop-IsOrdered :
    (i last : ℕ) (d : ℕ → ℕ)
    → IsOrdered (i + 1) last d
    → Returns (IsOrdered 1 last) (build_loop i last d)
unfolding build_loop down
build_loop-IsOrdered zero last d v = v
build_loop-IsOrdered (suc i) last d v =
    Returns-bind (IsOrdered (i + 1) last) (IsOrdered 1 last) (down_from (suc last) last (suc i) d)
      (build_loop i last)
      (down_from-IsOrdered (i + 1) last (omega arith) (suc last) (suc i) d (omega arith)
        (omega arith) (omega arith) (start i last d v))
      (λ e w. build_loop-IsOrdered i last e w)

-- No item is less than the one at the root.
pub root_least :
    (fuel last : ℕ) (d : ℕ → ℕ) (i : ℕ)
    → i ≤ fuel
    → IsOrdered 1 last d
    → 0 < i
    → i ≤ last
    → d 1 ≤ d i
unfolding IsOrdered
root_least zero last d i f v b h = absurd (omega arith)
root_least (suc fuel) last d i f v b h = ground (arith, root_least fuel last d (i / 2), v i)
