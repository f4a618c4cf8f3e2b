-- ===== src/ObjectPool/Invariant.antt =====
-- The invariant of the pool. `live` says which chunks hold an object, and `cs` lists the free ones.
use mod_cpp.Common.{
  ℕ, ◌+◌, ◌*◌, ◌≤◌, ◌<◌, ◌≡◌, Bool, true, false, ◌&&◌, ◌||◌, ltb, leb, ◌==◌, if◌then◌else◌, update,
  Option, none, some, List, [], ◌∷◌, arith,
}
use mod_cpp.ObjectPool.{MemoryNode, ObjectPool, node_size}

-- The free list, walked from `start`, is `cs`.
abbrev pub IsChain : (ℕ → Option ℕ) → Option ℕ → List ℕ → Type 0
IsChain links start [] = start ≡ none
IsChain links start (c ∷ cs) = (start ≡ some c) × IsChain links (links c) cs

abbrev pub member : ℕ → List ℕ → Bool
member a [] = false
member a (c ∷ cs) = if a == c then true else member a cs

abbrev pub Distinct : List ℕ → Type 0
Distinct [] = Unit
Distinct (c ∷ cs) = (member c cs ≡ false) × Distinct cs

pub IsChain-update :
    (links : ℕ → Option ℕ) (start : Option ℕ) (cs : List ℕ) (a : ℕ) (v : Option ℕ)
    → member a cs ≡ false
    → IsChain links start cs
    → IsChain (update links a v) start cs
IsChain-update links start [] a v h e = e
IsChain-update links start (c ∷ cs) a v h e =
    let other : (a == c) ≡ false = ground arith in
    (e.0, rw other (IsChain-update links (links c) cs a v (ground arith) e.1))

-- The chunks in use by objects or by the free list.
abbrev pub taken : (ℕ → Bool) → List ℕ → ℕ → Bool
taken live cs a = live a || member a cs

module _ (chunk_size capacity : ℕ) where
  -- The byte lies in one of the nodes.
  abbrev pub owned : List MemoryNode → ℕ → Bool
  owned [] a = false
  owned (n ∷ ns) a = (leb n.mem a && ltb a (n.mem + node_size chunk_size capacity)) || owned ns a

  -- The byte was cut from the latest node, or lies in an older one.
  abbrev pub claimed : List MemoryNode → ℕ → Bool
  claimed [] a = false
  claimed (n ∷ ns) a = (leb n.mem a && ltb a n.current) || owned ns a

  -- The latest node is cut at a multiple of the chunk size, and overlaps no older one.
  pub record IsCut (n : MemoryNode) (ns : List MemoryNode) : Type 0 where
    pub cut : ℕ
    pub at : n.current ≡ n.mem + cut * chunk_size
    pub within : cut ≤ capacity
    pub apart : (a : ℕ) → n.mem ≤ a → a < n.mem + node_size chunk_size capacity → owned ns a ≡ false

  abbrev pub IsCutList : List MemoryNode → Type 0
  IsCutList [] = ⊥
  IsCutList (n ∷ ns) = IsCut n ns

  pub record Inv (p : ObjectPool) (live : ℕ → Bool) (cs : List ℕ) : Type 0 where
    pub nodes : IsCutList p.memory_node_list
    pub chain : IsChain p.links p.free_list cs
    pub distinct : Distinct cs
    pub free_dead : (a : ℕ) → member a cs ≡ true → live a ≡ false
    pub apart :
        (a b : ℕ) → taken live cs a ≡ true → taken live cs b ≡ true → a < b → a + chunk_size ≤ b
    pub inside :
        (a b : ℕ)
        → taken live cs a ≡ true
        → a ≤ b
        → b < a + chunk_size
        → claimed p.memory_node_list b ≡ true
