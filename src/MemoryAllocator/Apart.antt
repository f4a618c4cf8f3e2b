-- ===== src/MemoryAllocator/Apart.antt =====
-- No two of the free regions, the blocks and the held interval overlap.
use mod_cpp.Common.{ℕ, ◌+◌, ◌≤◌, ◌<◌, ◌≡◌, update, none, some, arith}
use mod_cpp.MemoryAllocator.{MemoryAllocator, deleted, inserted}
use mod_cpp.MemoryAllocator.Held.{Books}

-- Each field reads: of two such intervals, one that starts before the other ends lies before it.
pub record Apart (a : MemoryAllocator) (x y : ℕ) : Type 0 where
  pub whole : x ≤ y
  pub free_free :
      (l r l' r' : ℕ) → a.left2right l ≡ some r → a.left2right l' ≡ some r' → l < l' → r ≤ l'
  pub used_used :
      (l n l' n' : ℕ) → a.addr2len l ≡ some n → a.addr2len l' ≡ some n' → l < l' → l + n ≤ l'
  pub used_positive : (l n : ℕ) → a.addr2len l ≡ some n → 0 < n
  pub free_used :
      (l r l' n : ℕ) → a.left2right l ≡ some r → a.addr2len l' ≡ some n → l < l' + n → r ≤ l'
  pub free_held : (l r : ℕ) → a.left2right l ≡ some r → x < y → l < y → r ≤ x
  pub used_held : (l n : ℕ) → a.addr2len l ≡ some n → x < y → l < y → l + n ≤ x

module _ (a : MemoryAllocator) (b : Books a) where
  -- The held interval takes in the free region that ends where it starts.
  pub Apart-prev :
      (x y w : ℕ) → Apart a x y → x < y → a.right2left x ≡ some w → Apart (deleted a w x) w y
  Apart-prev x y w p lt e =
      let here = b.left_of w x e in
      record {
        whole = ground (arith, p.whole, b.positive w x here);
        free_free = λ l r l' r' h h'. ground (arith, p.free_free l r l' r');
        used_used = p.used_used;
        used_positive = p.used_positive;
        free_used = λ l r l' n h h'. ground (arith, p.free_used l r l' n);
        free_held = λ l r h lt'. ground (
          arith,
          p.free_held l r,
          p.free_free w x l r,
          p.free_free l r w x,
          b.positive l r,
          here,
        );
        used_held = λ l n h lt'.
            ground (arith, p.used_held l n, p.free_used w x l n, p.used_positive l n, here);
      }

  pub Apart-next :
      (x y w : ℕ) → Apart a x y → x < y → a.left2right y ≡ some w → Apart (deleted a y w) x w
  Apart-next x y w p lt e = record {
    whole = ground (arith, p.whole, b.positive y w e);
    free_free = λ l r l' r' h h'. ground (arith, p.free_free l r l' r');
    used_used = p.used_used;
    used_positive = p.used_positive;
    free_used = λ l r l' n h h'. ground (arith, p.free_used l r l' n);
    free_held = λ l r h lt'.
        ground (arith, p.free_held l r, p.free_free y w l r, p.free_free l r y w, b.positive l r);
    used_held =
        λ l n h lt'. ground (arith, p.used_held l n, p.free_used y w l n, p.used_positive l n);
  }

  -- The held interval becomes a free region.
  pub Apart-insert : (x y : ℕ) → Apart a x y → x < y → Apart (inserted a x y) 0 0
  Apart-insert x y p lt = record {
    whole = omega arith;
    free_free = λ l r l' r' h h' q.
        ground (arith, p.free_free l r l' r', p.free_held l r, p.free_held l' r', b.positive l' r');
    used_used = p.used_used;
    used_positive = p.used_positive;
    free_used = λ l r l' n h h' q.
        ground (arith, p.free_used l r l' n, p.used_held l' n, p.used_positive l' n);
    free_held = λ l r h q. absurd (omega arith);
    used_held = λ l n h q. absurd (omega arith);
  }

  -- A free region is taken to be held.
  pub Apart-take : (l r : ℕ) → Apart a 0 0 → a.left2right l ≡ some r → Apart (deleted a l r) l r
  Apart-take x y p e = record {
    whole = omega (arith, b.positive x y e);
    free_free = λ l r l' r' h h'. ground (arith, p.free_free l r l' r');
    used_used = p.used_used;
    used_positive = p.used_positive;
    free_used = λ l r l' n h h'. ground (arith, p.free_used l r l' n);
    free_held = λ l r h lt'. ground (arith, p.free_free x y l r, p.free_free l r x y);
    used_held = λ l n h lt'. ground (arith, p.free_used x y l n, p.used_positive l n);
  }

  -- A block is given back: it is held.
  pub Apart-release :
      (l n : ℕ)
      → Apart a 0 0
      → a.addr2len l ≡ some n
      → Apart (record a { addr2len = update a.addr2len l none }) l (l + n)
  Apart-release x m p e = record {
    whole = omega arith;
    free_free = p.free_free;
    used_used = λ l n l' n' h h'. ground (arith, p.used_used l n l' n');
    used_positive = λ l n h. ground (arith, p.used_positive l n);
    free_used = λ l r l' n h h'. ground (arith, p.free_used l r l' n);
    free_held = λ l r h lt'. ground (arith, p.free_used l r x m);
    used_held = λ l n h lt' q. ground (arith, p.used_used l n x m, p.used_used x m l n);
  }

  -- The first part of the held interval becomes a block.
  pub Apart-give :
      (x y n : ℕ)
      → Apart a x y
      → 0 < n
      → x + n ≤ y
      → Apart (record a { addr2len = update a.addr2len x (some n) }) (x + n) y
  Apart-give x y m p pos room = record {
    whole = room;
    free_free = p.free_free;
    used_used = λ l n l' n' h h' q.
        ground
          (arith, p.used_used l n l' n', p.used_held l n, p.used_held l' n', p.used_positive l' n');
    used_positive = λ l n h. ground (arith, p.used_positive l n);
    free_used =
        λ l r l' n h h' q. ground (arith, p.free_used l r l' n, p.free_held l r, b.positive l r);
    free_held = λ l r h lt' q. ground (arith, p.free_held l r, b.positive l r);
    used_held = λ l n h lt' q. ground (arith, p.used_held l n, p.used_positive l n);
  }
