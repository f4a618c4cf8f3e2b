-- ===== src/MemoryAllocator/Cover.antt =====
-- Every address of a node is in a free region, in a block, or held, and no other address is.
use mod_cpp.Common.{
  ℕ, ◌+◌, ◌≤◌, ◌<◌, ◌==◌, ◌≡◌, Bool, true, false, ◌&&◌, ◌||◌, ltb, leb, Bool-cases, update, ◌⊎◌,
  inl, inr, none, some, List, [], ◌∷◌, arith,
}
use mod_cpp.MemoryAllocator.{MemoryAllocator, deleted, inserted}

abbrev pub IsFree : MemoryAllocator → ℕ → Type 0
IsFree a q = (l : ℕ) × (r : ℕ) × (a.left2right l ≡ some r) × (l ≤ q) × (q < r)

abbrev pub IsUsed : MemoryAllocator → ℕ → Type 0
IsUsed a q = (l : ℕ) × (n : ℕ) × (a.addr2len l ≡ some n) × (l ≤ q) × (q < l + n)

deleted-IsFree :
    (a : MemoryAllocator) (l r q : ℕ)
    → a.left2right l ≡ some r
    → IsFree a q
    → IsFree (deleted a l r) q ⊎ ((l ≤ q) × (q < r))
deleted-IsFree a l r q e (l', r', e', h, k) = elim (Bool-cases (l == l')) [
  | inl same ↦ inr (ground arith)
  | inr other ↦ inl (l', r', ground arith, h, k)
]

inserted-IsFree :
    (a : MemoryAllocator) (l r q : ℕ)
    → a.left2right l ≡ none
    → IsFree a q
    → IsFree (inserted a l r) q
inserted-IsFree a l r q e (l', r', e', h, k) = (l', r', ground arith, h, k)

released-IsUsed :
    (a : MemoryAllocator) (l n q : ℕ)
    → a.addr2len l ≡ some n
    → IsUsed a q
    → IsUsed (record a { addr2len = update a.addr2len l none }) q ⊎ ((l ≤ q) × (q < l + n))
released-IsUsed a l n q e (l', n', e', h, k) = elim (Bool-cases (l == l')) [
  | inl same ↦ inr (ground arith)
  | inr other ↦ inl (l', n', ground arith, h, k)
]

given-IsUsed :
    (a : MemoryAllocator) (l n q : ℕ)
    → a.addr2len l ≡ none
    → IsUsed a q
    → IsUsed (record a { addr2len = update a.addr2len l (some n) }) q
given-IsUsed a l n q e (l', n', e', h, k) = (l', n', ground arith, h, k)

module _ (node_size : ℕ) where
  -- The address lies in one of the nodes.
  abbrev pub owned : List ℕ → ℕ → Bool
  owned [] q = false
  owned (m ∷ ms) q = (leb m q && ltb q (m + node_size)) || owned ms q

  pub record Cover (a : MemoryAllocator) (x y : ℕ) : Type 0 where
    pub placed :
        (q : ℕ)
        → owned a.memory_node_list q ≡ true
        → IsFree a q ⊎ (IsUsed a q ⊎ ((x ≤ q) × (q < y)))
    pub free_owned :
        (l r q : ℕ) → a.left2right l ≡ some r → l ≤ q → q < r → owned a.memory_node_list q ≡ true
    pub used_owned :
        (l n q : ℕ) → a.addr2len l ≡ some n → l ≤ q → q < l + n → owned a.memory_node_list q ≡ true
    pub held_owned : (q : ℕ) → x ≤ q → q < y → owned a.memory_node_list q ≡ true

  module _ (a : MemoryAllocator) where
    pub Cover-delete :
        (x y l r x' y' : ℕ)
        → Cover a x y
        → a.left2right l ≡ some r
        → ((q : ℕ) → (x' ≤ q) × (q < y') → ((l ≤ q) × (q < r)) ⊎ ((x ≤ q) × (q < y)))
        → ((q : ℕ) → ((l ≤ q) × (q < r)) ⊎ ((x ≤ q) × (q < y)) → (x' ≤ q) × (q < y'))
        → Cover (deleted a l r) x' y'
    Cover-delete x y l r x' y' c e split join = record {
      placed = λ q o. elim (c.placed q o) [
        | inl f ↦ elim (deleted-IsFree a l r q e f) [
          | inl f' ↦ inl f'
          | inr h ↦ inr (inr (join q (inl h)))
        ]
        | inr (inl u) ↦ inr (inl u)
        | inr (inr h) ↦ inr (inr (join q (inr h)))
      ];
      free_owned = λ l' r' q h. ground (arith, c.free_owned l' r' q);
      used_owned = c.used_owned;
      held_owned = λ q h k. elim (split q (h, k)) [
        | inl f ↦ c.free_owned l r q e f.0 f.1
        | inr g ↦ c.held_owned q g.0 g.1
      ];
    }

    pub Cover-insert : (x y : ℕ) → Cover a x y → a.left2right x ≡ none → Cover (inserted a x y) 0 0
    Cover-insert x y c e = record {
      placed = λ q o. elim (c.placed q o) [
        | inl f ↦ inl (inserted-IsFree a x y q e f)
        | inr (inl u) ↦ inr (inl u)
        | inr (inr h) ↦ inl (x, y, ground arith, h.0, h.1)
      ];
      free_owned = λ l' r' q h. ground (arith, c.free_owned l' r' q, c.held_owned q);
      used_owned = c.used_owned;
      held_owned = λ q h k. absurd (omega arith);
    }

    pub Cover-release :
        (l n : ℕ)
        → Cover a 0 0
        → a.addr2len l ≡ some n
        → Cover (record a { addr2len = update a.addr2len l none }) l (l + n)
    Cover-release l n c e = record {
      placed = λ q o. elim (c.placed q o) [
        | inl f ↦ inl f
        | inr (inl u) ↦ inr (released-IsUsed a l n q e u)
        | inr (inr h) ↦ absurd (omega arith)
      ];
      free_owned = c.free_owned;
      used_owned = λ l' n' q h. ground (arith, c.used_owned l' n' q);
      held_owned = λ q. c.used_owned l n q e;
    }

    pub Cover-give :
        (x y n : ℕ)
        → Cover a x y
        → a.addr2len x ≡ none
        → x + n ≤ y
        → Cover (record a { addr2len = update a.addr2len x (some n) }) (x + n) y
    Cover-give x y n c e room = record {
      placed = λ q o. elim (c.placed q o) [
        | inl f ↦ inl f
        | inr (inl u) ↦ inr (inl (given-IsUsed a x n q e u))
        | inr (inr h) ↦ elim (Bool-cases (ltb q (x + n))) [
          | inl first ↦ inr (inl (x, n, ground arith, h.0, ground arith))
          | inr rest ↦ inr (inr (ground arith))
        ]
      ];
      free_owned = c.free_owned;
      used_owned = λ l' n' q h. ground (arith, c.used_owned l' n' q, c.held_owned q);
      held_owned = λ q h k. c.held_owned q (omega arith) k;
    }

    -- A new node is held.
    pub Cover-node :
        (m : ℕ)
        → Cover a 0 0
        → Cover (record a { memory_node_list = m ∷ a.memory_node_list }) m (m + node_size)
    Cover-node m c = record {
      placed = λ q o. elim (Bool-cases (leb m q && ltb q (m + node_size))) [
        | inl here ↦ inr (inr (ground arith))
        | inr other ↦ elim (c.placed q (ground arith)) [
          | inl f ↦ inl f
          | inr (inl u) ↦ inr (inl u)
          | inr (inr h) ↦ absurd (omega arith)
        ]
      ];
      free_owned = λ l r q h i k. ground (arith, c.free_owned l r q);
      used_owned = λ l n q h i k. ground (arith, c.used_owned l n q);
      held_owned = λ q h k. ground arith;
    }
