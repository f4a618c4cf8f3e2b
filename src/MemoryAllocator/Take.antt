-- ===== src/MemoryAllocator/Take.antt =====
-- A block cut from the left end of a free region.
use mod_cpp.Common.{
  ℕ, ◌+◌, ◌-◌, ◌%◌, ◌≤◌, ◌<◌, ◌^◌, ◌==◌, ◌≡◌, refl, true, Bool-cases, update, inl, inr, Option,
  none, some, Option-cases, List, arith,
}
use mod_cpp.Common.Outcome.{Returns}
use mod_cpp.MemoryAllocator.{MemoryAllocator, deleted, take_from}
use mod_cpp.MemoryAllocator.Regions.{MemoryRegion, contains}
use mod_cpp.MemoryAllocator.Held.{deleted-Books}
use mod_cpp.MemoryAllocator.Apart.{Apart-take, Apart-give}
use mod_cpp.MemoryAllocator.Cover.{Cover-delete, Cover-give}
use mod_cpp.MemoryAllocator.Invariant.{
  Holding, IsValid, delete-ok, insert-ok, held-left, held-right, Holding-insert,
}

module _ {node_size : ℕ} where
  Holding-take :
      (a : MemoryAllocator) (l r : ℕ)
      → IsValid node_size a
      → a.left2right l ≡ some r
      → Holding node_size (deleted a l r) l r
  Holding-take a l r v e = record {
    books = deleted-Books a l r v.books e;
    apart = Apart-take a v.books l r v.apart e;
    cover = Cover-delete node_size a 0 0 l r l r v.cover e (λ q s. inl s) (λ q s. omega arith);
    small = v.books.fits l r e;
    used_small = v.used_small;
  }

  -- A block that starts where held memory starts would overlap it.
  held-unused :
      (a : MemoryAllocator) (x y : ℕ) → Holding node_size a x y → x < y → a.addr2len x ≡ none
  held-unused a x y h lt = elim (Option-cases (a.addr2len x)) [
    | inl e ↦ e
    | inr (n, e) ↦
        absurd (omega (arith, h.apart.used_held x n e lt lt, h.apart.used_positive x n e))
  ]

  Holding-give :
      (a : MemoryAllocator) (x y n : ℕ)
      → Holding node_size a x y
      → 0 < n
      → x + n ≤ y
      → Holding node_size (record a { addr2len = update a.addr2len x (some n) }) (x + n) y
  Holding-give a x y n h pos room = record {
    books = record {
      right_of = h.books.right_of;
      left_of = h.books.left_of;
      listed = h.books.listed;
      known = h.books.known;
      positive = h.books.positive;
      fits = h.books.fits;
      ordered = h.books.ordered;
    };
    apart = Apart-give a h.books x y n h.apart pos room;
    cover = Cover-give node_size a x y n h.cover (held-unused a x y h (omega arith)) room;
    small = h.small;
    used_small = λ l k e. ground (arith, h.used_small l k, h.small);
  }

  Holding-empty : (a : MemoryAllocator) (x : ℕ) → Holding node_size a x x → IsValid node_size a
  Holding-empty a x h = record {
    books = h.books;
    apart = record {
      whole = omega arith;
      free_free = h.apart.free_free;
      used_used = h.apart.used_used;
      used_positive = h.apart.used_positive;
      free_used = h.apart.free_used;
      free_held = λ l r e p. absurd (omega arith);
      used_held = λ l r e p. absurd (omega arith);
    };
    cover = record {
      placed = λ q o. elim (h.cover.placed q o) [
        | inl f ↦ inl f
        | inr (inl u) ↦ inr (inl u)
        | inr (inr k) ↦ absurd (omega arith)
      ];
      free_owned = h.cover.free_owned;
      used_owned = h.cover.used_owned;
      held_owned = λ q i j. absurd (omega arith);
    };
    small = omega arith;
    used_small = h.used_small;
  }

-- The block [m.left, m.left + n) cut from the region `m`.
pub record Taken (node_size : ℕ) (a : MemoryAllocator) (n : ℕ) (m : MemoryRegion) (p : ℕ)
    (b : MemoryAllocator) : Type 0 where
  pub start : p ≡ m.left
  pub valid : IsValid node_size b
  pub blocks : b.addr2len ≡ update a.addr2len p (some n)
  pub nodes : b.memory_node_list ≡ a.memory_node_list
  pub unused : (l k : ℕ) → a.addr2len l ≡ some k → l < p + n → l + k ≤ p
  pub rest : n < m.len → b.left2right (p + n) ≡ some m.right

pub take_from_lem :
    {node_size : ℕ} (new_array : List ℕ → Option ℕ) (a : MemoryAllocator) (n : ℕ) (m : MemoryRegion)
    → IsValid node_size a
    → contains m a.free_memory_region ≡ true
    → 0 < n
    → n ≤ m.len
    → Returns (λ r. Taken node_size a n m r.0 r.1) (take_from node_size new_array a n m)
unfolding take_from
take_from_lem new_array a n m v c pos le =
    let (e, sum) = v.books.known m c in
    let small = v.books.fits m.left m.right e in
    let h = Holding-take a m.left m.right v e in
    let g = Holding-give (deleted a m.left m.right) m.left m.right n h pos (omega arith) in
    let unused = λ (l k : ℕ) (q : a.addr2len l ≡ some k) (lt : l < m.left + n).
      h.apart.used_held l k q (omega arith) (omega arith) in
    rw (delete-ok a m.left m.right v.books e)
      (elim (Bool-cases ((n + 2 ^ 64 - m.len) % 2 ^ 64 == 0)) [
        | inl exact ↦
            let end : m.left + n ≡ m.right = ground arith in
            rw exact (record {
              start = refl;
              valid = Holding-empty _ m.right (rw end at g);
              blocks = refl;
              nodes = refl;
              unused = unused;
              rest = λ longer. absurd (omega arith);
            })
        | inr longer ↦
            let room : m.left + n < m.right = ground arith in
            rw
              (
                longer,
                insert-ok (deleted a m.left m.right) (m.left + n) m.right h.books (held-left g room)
                    (held-right g room),
              )
              (record {
                start = refl;
                valid = Holding-insert g room;
                blocks = refl;
                nodes = refl;
                unused = unused;
                rest = λ _. ground arith;
              })
      ])
