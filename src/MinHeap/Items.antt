-- ===== src/MinHeap/Items.antt =====
-- `down` and `up` permute the items.
use mod_cpp.Common.{
  ℕ, zero, suc, ◌+◌, ◌-◌, ◌/◌, ◌≤◌, ◌<◌, ◌≡◌, refl, ◌∙◌, Bool, Bool-cases, inl, inr, ltb, ◌==◌,
  if◌then◌else◌, update, arith,
}
use mod_cpp.Common.Outcome.{Returns, Returns-bind, Returns-map}
use mod_cpp.MinHeap.{swap, min_val_pos, down_from, down, up_from, build_loop}

abbrev pub one_if : Bool → ℕ
one_if b = if b then 1 else 0

-- How often `v` stands at the indices 1 to `last`.
unfoldable pub times : ℕ → (ℕ → ℕ) → ℕ → ℕ
times zero d v = 0
times (suc last) d v = one_if (d (suc last) == v) + times last d v

pub times_last :
    (last : ℕ) (d : ℕ → ℕ) (v : ℕ)
    → 0 < last
    → times last d v ≡ one_if (d last == v) + times (last - 1) d v
unfolding times
times_last zero d v b = absurd (omega arith)
times_last (suc last) d v b = rw before refl
  where
    before : suc last - 1 ≡ last
    before = omega arith

pub times-update_above :
    (last : ℕ) (d : ℕ → ℕ) (i a v : ℕ) → last < i → times last (update d i a) v ≡ times last d v
unfolding times
times-update_above zero d i a v h = refl
times-update_above (suc last) d i a v h = ground (arith, times-update_above last d i a v)

pub times-update :
    (last : ℕ) (d : ℕ → ℕ) (i a v : ℕ)
    → 0 < i
    → i ≤ last
    → times last (update d i a) v + one_if (d i == v) ≡ times last d v + one_if (a == v)
unfolding times
times-update zero d i a v b h = absurd (omega arith)
times-update (suc last) d i a v b h =
    ground (arith, times-update last d i a v, times-update_above last d i a v)

pub times-swap :
    (last : ℕ) (d : ℕ → ℕ) (i j v : ℕ)
    → 0 < i
    → i ≤ last
    → 0 < j
    → j ≤ last
    → times last (swap d i j) v ≡ times last d v
times-swap last d i j v b h b' h' =
    ground (
      arith,
      times-update last d i (d j) v b h,
      times-update last (update d i (d j)) j (d i) v b' h',
    )

-- The arrays hold every value equally often.
abbrev pub SameTimes : ℕ → (ℕ → ℕ) → (ℕ → ℕ) → Type 0
SameTimes last d e = (v : ℕ) → times last e v ≡ times last d v

pub down_from-SameTimes :
    (fuel last root : ℕ) (d : ℕ → ℕ)
    → 0 < root
    → 0 < fuel
    → last < root + fuel
    → Returns (SameTimes last d) (down_from fuel last root d)
unfolding down_from
down_from-SameTimes zero last root d b p f = absurd (omega arith)
down_from-SameTimes (suc fuel) last root d b p f =
    elim (Bool-cases (min_val_pos d last root == root)) [
      | inl e ↦ rw e (λ v. refl)
      | inr e ↦ rw e (
          Returns-map (SameTimes last (swap d root (min_val_pos d last root))) _
            (down_from fuel last (min_val_pos d last root) (swap d root (min_val_pos d last root)))
            (down_from-SameTimes fuel last (min_val_pos d last root)
              (swap d root (min_val_pos d last root)) (ground arith) (ground arith) (ground arith))
            (λ t h v.
              h v
              ∙ times-swap last d root (min_val_pos d last root) v b (ground arith) (ground arith)
                  (ground arith)))
    ]

pub up_from-SameTimes :
    (fuel last root : ℕ) (d : ℕ → ℕ)
    → 0 < root
    → root ≤ last
    → root ≤ fuel
    → Returns (SameTimes last d) (up_from fuel root d)
unfolding up_from
up_from-SameTimes zero last root d b h f = absurd (omega arith)
up_from-SameTimes (suc fuel) last root d b h f = elim (Bool-cases (root == 1)) [
  | inl e ↦ rw e (λ v. refl)
  | inr e ↦ rw e (elim (Bool-cases (ltb (d root) (d (root / 2)))) [
    | inl g ↦ rw g (
        Returns-map (SameTimes last (swap d (root / 2) root)) _
          (up_from fuel (root / 2) (swap d (root / 2) root))
          (up_from-SameTimes fuel last (root / 2) (swap d (root / 2) root) (ground arith)
            (omega arith) (ground arith))
          (λ t k v. k v ∙ times-swap last d (root / 2) root v (ground arith) (omega arith) b h))
    | inr g ↦ rw g (λ v. refl)
  ])
]

pub build_loop-SameTimes :
    (i last : ℕ) (d : ℕ → ℕ) → Returns (SameTimes last d) (build_loop i last d)
unfolding build_loop down
build_loop-SameTimes zero last d = λ v. refl
build_loop-SameTimes (suc i) last d =
    Returns-bind (SameTimes last d) (SameTimes last d) (down_from (suc last) last (suc i) d)
      (build_loop i last)
      (down_from-SameTimes (suc last) last (suc i) d (omega arith) (omega arith) (omega arith))
      (λ e h.
        Returns-map (SameTimes last e) _ (build_loop i last e) (build_loop-SameTimes i last e)
          (λ t k v. k v ∙ h v))
