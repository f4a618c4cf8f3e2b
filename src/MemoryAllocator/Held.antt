-- ===== src/MemoryAllocator/Held.antt =====
-- The invariant of the allocator, with one interval [x, y) of memory held by an operation: neither
-- in the free regions nor in a block. Between operations the interval is empty.
use mod_cpp.Common.{ℕ, ◌+◌, ◌<◌, ◌^◌, ◌≡◌, true, none, some, arith}
use mod_cpp.MemoryAllocator.{MemoryAllocator, region, deleted, inserted}
use mod_cpp.MemoryAllocator.Regions.{
  MemoryRegion, contains, contains-insert, contains-erase, IsOrdered, IsOrdered-insert,
  IsOrdered-erase,
}

-- The three containers of free regions agree.
pub record Books (a : MemoryAllocator) : Type 0 where
  pub right_of : (l r : ℕ) → a.left2right l ≡ some r → a.right2left r ≡ some l
  pub left_of : (l r : ℕ) → a.right2left r ≡ some l → a.left2right l ≡ some r
  pub listed :
      (l r : ℕ) → a.left2right l ≡ some r → contains (region l r) a.free_memory_region ≡ true
  pub known :
      (m : MemoryRegion)
      → contains m a.free_memory_region ≡ true
      → (a.left2right m.left ≡ some m.right) × (m.left + m.len ≡ m.right)
  pub positive : (l r : ℕ) → a.left2right l ≡ some r → l < r
  pub fits : (l r : ℕ) → a.left2right l ≡ some r → r < 2 ^ 64
  pub ordered : IsOrdered a.free_memory_region

pub deleted-Books :
    (a : MemoryAllocator) (l r : ℕ) → Books a → a.left2right l ≡ some r → Books (deleted a l r)
deleted-Books a l r b e = record {
  right_of = λ p q h. ground (arith, b.right_of p q, b.right_of l r);
  left_of = λ p q h. ground (arith, b.left_of p q, b.right_of l r);
  listed = λ p q h.
      ground (arith, b.listed p q, contains-erase (region p q) (region l r) a.free_memory_region);
  known = λ m h. ground (arith, b.known m, contains-erase m (region l r) a.free_memory_region);
  positive = λ p q h. ground (arith, b.positive p q);
  fits = λ p q h. ground (arith, b.fits p q);
  ordered = IsOrdered-erase _ _ b.ordered;
}

pub inserted-Books :
    (a : MemoryAllocator) (l r : ℕ)
    → Books a
    → a.left2right l ≡ none
    → a.right2left r ≡ none
    → l < r
    → r < 2 ^ 64
    → Books (inserted a l r)
inserted-Books a l r b el er lt small = record {
  right_of = λ p q h. ground (arith, b.right_of p q);
  left_of = λ p q h. ground (arith, b.left_of p q);
  listed = λ p q h.
      ground (arith, b.listed p q, contains-insert (region p q) (region l r) a.free_memory_region);
  known = λ m h. ground (arith, b.known m, contains-insert m (region l r) a.free_memory_region);
  positive = λ p q h. ground (arith, b.positive p q);
  fits = λ p q h. ground (arith, b.fits p q);
  ordered = IsOrdered-insert _ _ b.ordered;
}
