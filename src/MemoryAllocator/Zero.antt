-- ===== src/MemoryAllocator/Zero.antt =====
-- `allocate(0)`.
use mod_cpp.Common.{
  ℕ, ◌+◌, ◌-◌, ◌%◌, ◌^◌, ◌==◌, ◌≡◌, true, false, ltb, inl, inr, Option, some, Option-cases, List,
  arith,
}
use mod_cpp.Common.Outcome.{Returns}
use mod_cpp.MemoryAllocator.{MemoryAllocator, region, deleted, grow_if_end, take_from, allocate}
use mod_cpp.MemoryAllocator.Regions.{
  MemoryRegion, contains, contains-lower_bound, lower_bound, lower_bound-none, at_least,
}
use mod_cpp.MemoryAllocator.Held.{deleted-Books}
use mod_cpp.MemoryAllocator.Cover.{IsFree}
use mod_cpp.MemoryAllocator.Invariant.{IsValid, delete-ok, insert-ok}

module _ (node_size : ℕ) (new_array : List ℕ → Option ℕ) (a : MemoryAllocator)
    (v : IsValid node_size a) where
  take_zero :
      (m : MemoryRegion)
      → contains m a.free_memory_region ≡ true
      → Returns
          (λ r. (r.1.addr2len r.0 ≡ some 0) × IsFree r.1 r.0)
          (take_from node_size new_array a 0 m)
  unfolding take_from
  take_zero m c =
      let (e, sum) = v.books.known m c in
      let below = v.books.positive m.left m.right e in
      let small = v.books.fits m.left m.right e in
      let b = deleted a m.left m.right in
      let longer : ((0 + 2 ^ 64 - m.len) % 2 ^ 64 == 0) ≡ false = ground arith in
      rw
        (
          delete-ok a m.left m.right v.books e,
          longer,
          insert-ok b (m.left + 0) m.right (deleted-Books a m.left m.right v.books e) (ground arith)
              (ground arith),
        )
        (ground arith, (m.left, m.right, ground arith, omega arith, below))

  -- On a valid allocator with a free region `allocate(0)` records a block of no bytes at the start of a
  -- region that stays free, so that its address will be handed out again.
  pub allocate-zero :
      (l r : ℕ)
      → a.left2right l ≡ some r
      → Returns
          (λ r. (r.1.addr2len r.0 ≡ some 0) × IsFree r.1 r.0)
          (allocate node_size new_array a 0)
  unfolding allocate grow_if_end
  allocate-zero l r f = elim (Option-cases (lower_bound (at_least 0) a.free_memory_region)) [
    | inl end ↦ absurd (
        omega
          (arith, lower_bound-none 0 a.free_memory_region (region l r) end (v.books.listed l r f)))
    | inr (m, found) ↦
        let fits : ltb node_size 0 ≡ false = ground arith in
        rw (fits, found, found)
          (take_zero m (contains-lower_bound 0 a.free_memory_region m found).0)
  ]
