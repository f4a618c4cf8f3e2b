-- ===== src/MemoryAllocator/Release.antt =====
-- `release` gives the block back and merges it with the free regions on both sides.
use mod_cpp.Common.{ℕ, ◌+◌, ◌≤◌, ◌<◌, ◌≡◌, refl, update, Option, none, some, ◌≢◌, ◌∙◌, arith}
use mod_cpp.Common.Outcome.{assert_failed, Returns, Returns-bind, Returns-map}
use mod_cpp.MemoryAllocator.{MemoryAllocator, merge_prev, merge_next, release_block, release}
use mod_cpp.MemoryAllocator.Apart.{Apart-release}
use mod_cpp.MemoryAllocator.Cover.{Cover-release}
use mod_cpp.MemoryAllocator.Invariant.{
  Holding, IsValid, delete-ok, insert-held, Holding-insert, Holding-prev, Holding-next,
}

abbrev pub or_else : Option ℕ → ℕ → ℕ
or_else none d = d
or_else (some a) d = a

-- No free region ends where another one starts.
abbrev pub IsCoalesced : MemoryAllocator → Type 0
IsCoalesced a = (l m r : ℕ) → a.left2right l ≡ some m → a.left2right m ≡ some r → ⊥

-- What a merge leaves as it was: the blocks, the nodes, and the free regions that stay.
record Kept (a b : MemoryAllocator) : Type 0 where
  blocks : b.addr2len ≡ a.addr2len
  nodes : b.memory_node_list ≡ a.memory_node_list
  fewer : (l r : ℕ) → b.left2right l ≡ some r → a.left2right l ≡ some r

record Merged (node_size : ℕ) (a b : MemoryAllocator) (x y : ℕ) : Type 0 where
  holding : Holding node_size b x y
  kept : Kept a b

module _ {node_size : ℕ} where
  merge_prev_lem :
      (a : MemoryAllocator) (x y : ℕ) (o : Option ℕ)
      → Holding node_size a x y
      → x < y
      → a.right2left x ≡ o
      → Returns
          (λ p.
            Merged node_size a p.1 p.0 y
            × (p.0 ≡ or_else o x)
            × (p.0 ≤ x)
            × (p.1.left2right y ≡ a.left2right y))
          (merge_prev a x o)
  unfolding merge_prev
  merge_prev_lem a x y none h lt e = (
    record { holding = h; kept = record { blocks = refl; nodes = refl; fewer = λ l r q. q } },
    refl,
    omega arith,
    refl,
  )
  merge_prev_lem a x y (some w) h lt e =
      let f = h.books.left_of w x e in
      let below = h.books.positive w x f in
      rw (delete-ok a w x h.books f) (
        record {
          holding = Holding-prev x y w h lt e;
          kept = record { blocks = refl; nodes = refl; fewer = λ l r q. ground arith };
        },
        refl,
        omega arith,
        ground arith,
      )

  merge_next_lem :
      (a : MemoryAllocator) (x y : ℕ) (o : Option ℕ)
      → Holding node_size a x y
      → x < y
      → a.left2right y ≡ o
      → Returns
          (λ p. Merged node_size a p.1 x p.0 × (p.0 ≡ or_else o y) × (y ≤ p.0))
          (merge_next a y o)
  unfolding merge_next
  merge_next_lem a x y none h lt e = (
    record { holding = h; kept = record { blocks = refl; nodes = refl; fewer = λ l r q. q } },
    refl,
    omega arith,
  )
  merge_next_lem a x y (some w) h lt e =
      let above = h.books.positive y w e in
      rw (delete-ok a y w h.books e) (
        record {
          holding = Holding-next x y w h lt e;
          kept = record { blocks = refl; nodes = refl; fewer = λ l r q. ground arith };
        },
        refl,
        omega arith,
      )

-- What `release` of the block [p, p + n) makes of the state.
pub record Released (node_size : ℕ) (a : MemoryAllocator) (p n : ℕ) (b : MemoryAllocator)
    : Type 0 where
  pub valid : IsValid node_size b
  pub blocks : b.addr2len ≡ update a.addr2len p none
  pub nodes : b.memory_node_list ≡ a.memory_node_list
  pub merged :
      b.left2right (or_else (a.right2left p) p) ≡ some (or_else (a.left2right (p + n)) (p + n))
  pub only :
      (l r : ℕ) → b.left2right l ≡ some r → l ≢ or_else (a.right2left p) p → a.left2right l ≡ some r

module _ {node_size : ℕ} where
  release-Holding :
      (a : MemoryAllocator) (p n : ℕ)
      → IsValid node_size a
      → a.addr2len p ≡ some n
      → Holding node_size (record a { addr2len = update a.addr2len p none }) p (p + n)
  release-Holding a p n v e = record {
    books = record {
      right_of = v.books.right_of;
      left_of = v.books.left_of;
      listed = v.books.listed;
      known = v.books.known;
      positive = v.books.positive;
      fits = v.books.fits;
      ordered = v.books.ordered;
    };
    apart = Apart-release a v.books p n v.apart e;
    cover = Cover-release node_size a p n v.cover e;
    small = v.used_small p n e;
    used_small = λ l k h. ground (arith, v.used_small l k);
  }

  release_block_lem :
      (a : MemoryAllocator) (p n : ℕ)
      → IsValid node_size a
      → a.addr2len p ≡ some n
      → Returns (Released node_size a p n) (release_block a p n)
  unfolding release_block
  release_block_lem a p n v e =
      let pos = v.apart.used_positive p n e in
      let b = record a { addr2len = update a.addr2len p none } in
      let start = release-Holding a p n v e in
      Returns-bind _ _ (merge_prev b p (b.right2left p)) _
        (merge_prev_lem b p (p + n) _ start (omega arith) refl)
        λ q s.
          Returns-bind _ _ (merge_next q.1 (p + n) (q.1.left2right (p + n))) _
            (merge_next_lem q.1 q.0 (p + n) _ s.0.holding (omega (arith, s.2)) refl)
            λ u t.
              let wide : q.0 < u.0 = omega (arith, s.2, t.2) in
              rw (insert-held t.0.holding wide) (record {
                valid = Holding-insert t.0.holding wide;
                blocks = t.0.kept.blocks ∙ s.0.kept.blocks;
                nodes = t.0.kept.nodes ∙ s.0.kept.nodes;
                merged = ground (arith, s.1, t.1, s.3);
                only = λ l r h k. ground (arith, s.1, t.0.kept.fewer l r, s.0.kept.fewer l r);
              })

  -- `release` of a block that is in use succeeds on a valid allocator: no assertion fails, the block
  -- is gone and the others and the nodes stay, the new free region runs from the start of the region
  -- that ended at the block, if any, to the end of the region that started behind it, if any, and every
  -- other free region was there before. The state is valid again.
  pub release_correct :
      (a : MemoryAllocator) (p n : ℕ)
      → IsValid node_size a
      → a.addr2len p ≡ some n
      → Returns (Released node_size a p n) (release a p)
  unfolding release
  release_correct a p n v e = rw e (release_block_lem a p n v e)

  -- Where no two free regions meet, none meet after `release`.
  pub release-IsCoalesced :
      (a : MemoryAllocator) (p n : ℕ)
      → IsValid node_size a
      → a.addr2len p ≡ some n
      → IsCoalesced a
      → Returns IsCoalesced (release a p)
  release-IsCoalesced a p n v e c =
      Returns-map _ _ (release a p) (release_correct a p n v e) λ b s l m r h k.
        let w = or_else (a.right2left p) p in
        let z = or_else (a.left2right (p + n)) (p + n) in
        let books = v.books in
        ground (
          arith,
          s.only l m h,
          s.only m r k,
          s.merged,
          c l m r,
          c (p + n) m r,
          c l m p,
          s.valid.books.positive l m h,
          s.valid.books.positive m r k,
          v.apart.used_positive p n e,
          books.left_of w p,
          books.right_of l p,
          books.positive w p,
          books.positive (p + n) z,
        )

-- `release` of an address that is not in use fails its assertion.
pub release-unknown :
    (a : MemoryAllocator) (p : ℕ) → a.addr2len p ≡ none → release a p ≡ assert_failed
unfolding release
release-unknown a p e = rw e
