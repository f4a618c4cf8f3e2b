-- ===== src/MemoryAllocator/Invariant.antt =====
-- The invariant, and the steps that hold memory and give it back.
use mod_cpp.Common.{ℕ, ◌+◌, ◌<◌, ◌^◌, ◌≡◌, inl, inr, none, some, Option-cases, arith}
use mod_cpp.Common.Outcome.{ok}
use mod_cpp.MemoryAllocator.{
  MemoryAllocator, region, deleted, inserted, delete_memory_region, insert_memory_region,
}
use mod_cpp.MemoryAllocator.Held.{Books, deleted-Books, inserted-Books}
use mod_cpp.MemoryAllocator.Apart.{Apart, Apart-prev, Apart-next, Apart-insert}
use mod_cpp.MemoryAllocator.Cover.{Cover, Cover-delete, Cover-insert}

module _ (node_size : ℕ) where
  -- [x, y) is held.
  pub record Holding (a : MemoryAllocator) (x y : ℕ) : Type 0 where
    pub books : Books a
    pub apart : Apart a x y
    pub cover : Cover node_size a x y
    pub small : y < 2 ^ 64
    pub used_small : (l n : ℕ) → a.addr2len l ≡ some n → l + n < 2 ^ 64

  abbrev pub IsValid : MemoryAllocator → Type 0
  IsValid a = Holding a 0 0

pub delete-ok :
    (a : MemoryAllocator) (l r : ℕ)
    → Books a
    → a.left2right l ≡ some r
    → delete_memory_region a l r ≡ ok (deleted a l r)
unfolding delete_memory_region
delete-ok a l r b e = rw (b.listed l r e, b.right_of l r e, e)

pub insert-ok :
    (a : MemoryAllocator) (l r : ℕ)
    → Books a
    → a.left2right l ≡ none
    → a.right2left r ≡ none
    → insert_memory_region a l r ≡ ok (inserted a l r)
unfolding insert_memory_region
insert-ok a l r b el er = ground (arith, b.known (region l r))

module _ {node_size : ℕ} {a : MemoryAllocator} where
  -- A free region that starts at `x` or ends at `y` would overlap the held interval [x, y).
  pub held-left : {x y : ℕ} → Holding node_size a x y → x < y → a.left2right x ≡ none
  held-left {x} {y} h lt = elim (Option-cases (a.left2right x)) [
    | inl e ↦ e
    | inr (r, e) ↦ absurd (omega (arith, h.apart.free_held x r e lt lt, h.books.positive x r e))
  ]

  pub held-right : {x y : ℕ} → Holding node_size a x y → x < y → a.right2left y ≡ none
  held-right {x} {y} h lt = elim (Option-cases (a.right2left y)) [
    | inl e ↦ e
    | inr (l, e) ↦
        let f = h.books.left_of l y e in
        absurd (omega (arith, h.apart.free_held l y f lt, h.books.positive l y f))
  ]

  pub Holding-insert :
      {x y : ℕ} → Holding node_size a x y → x < y → Holding node_size (inserted a x y) 0 0
  Holding-insert {x} {y} h lt = record {
    books = inserted-Books a x y h.books (held-left h lt) (held-right h lt) lt h.small;
    apart = Apart-insert a h.books x y h.apart lt;
    cover = Cover-insert node_size a x y h.cover (held-left h lt);
    small = omega arith;
    used_small = h.used_small;
  }

  pub insert-held :
      {x y : ℕ} → Holding node_size a x y → x < y → insert_memory_region a x y ≡ ok (inserted a x y)
  insert-held {x} {y} h lt = insert-ok a x y h.books (held-left h lt) (held-right h lt)

  pub Holding-prev :
      (x y w : ℕ)
      → Holding node_size a x y
      → x < y
      → a.right2left x ≡ some w
      → Holding node_size (deleted a w x) w y
  Holding-prev x y w h lt e =
      let f = h.books.left_of w x e in
      let below = h.books.positive w x f in
      record {
        books = deleted-Books a w x h.books f;
        apart = Apart-prev a h.books x y w h.apart lt e;
        cover =
            Cover-delete node_size a x y w x w y h.cover f (λ q s. omega arith)
              (λ q s. omega arith);
        small = h.small;
        used_small = h.used_small;
      }

  pub Holding-next :
      (x y w : ℕ)
      → Holding node_size a x y
      → x < y
      → a.left2right y ≡ some w
      → Holding node_size (deleted a y w) x w
  Holding-next x y w h lt e =
      let above = h.books.positive y w e in
      record {
        books = deleted-Books a y w h.books e;
        apart = Apart-next a h.books x y w h.apart lt e;
        cover =
            Cover-delete node_size a x y y w x w h.cover e (λ q s. omega arith)
              (λ q s. omega arith);
        small = h.books.fits y w e;
        used_small = h.used_small;
      }
