-- ===== src/FreeListPool/Invariant.antt =====
-- The invariant of the pool: `live` says which pointers are in use.
use mod_cpp.Common.{
  ℕ, ◌≤◌, ◌<◌, ◌≡◌, refl, sym, subst, Bool, true, false, ◌&&◌, ◌||◌, ltb, ◌==◌, if◌then◌else◌, List,
  [], ◌∷◌, ◌++◌, arith,
}
use mod_cpp.Common.Outcome.{Returns}
use mod_cpp.FreeListPool.{
  Pointer, MemoryNode, ObjectPool, size, full, new_pool, node_allocate, allocate_from,
  allocate_free, allocate, release,
}

abbrev pub same : ℕ → ℕ → Pointer → Bool
same b i x = b == x.array && i == x.index

abbrev pub member : ℕ → ℕ → List Pointer → Bool
member b i [] = false
member b i (x ∷ l) = same b i x || member b i l

abbrev pub Distinct : List Pointer → Type 0
Distinct [] = Unit
Distinct (x ∷ l) = (member x.array x.index l ≡ false) × Distinct l

-- The object was cut from one of the nodes.
abbrev pub carved : ℕ → ℕ → List MemoryNode → Bool
carved b i [] = false
carved b i (n ∷ ns) = (b == n.mem && ltb i n.cur_free_idx) || carved b i ns

abbrev pub IsNodes : ℕ → List MemoryNode → Type 0
IsNodes capacity [] = ⊥
IsNodes capacity (n ∷ ns) =
    (n.mem ≡ size ns)
    × (n.cur_free_idx ≤ capacity)
    × ((b i : ℕ) → carved b i ns ≡ true → (b < size ns) × (i < capacity))

pub record Inv (capacity : ℕ) (p : ObjectPool) (live : ℕ → ℕ → Bool) : Type 0 where
  pub nodes : IsNodes capacity p.mem_node_list
  pub distinct : Distinct p.freelist
  pub free_dead : (b i : ℕ) → member b i p.freelist ≡ true → live b i ≡ false
  pub free_carved : (b i : ℕ) → member b i p.freelist ≡ true → carved b i p.mem_node_list ≡ true
  pub live_carved : (b i : ℕ) → live b i ≡ true → carved b i p.mem_node_list ≡ true

abbrev pub set_live : (ℕ → ℕ → Bool) → Pointer → Bool → ℕ → ℕ → Bool
set_live live x v b i = if same b i x then v else live b i

member-append :
    (l : List Pointer) (x : Pointer) (b i : ℕ)
    → member b i (l ++ x ∷ []) ≡ (member b i l || same b i x)
member-append [] x b i = ground arith
member-append (y ∷ l) x b i = ground (arith, member-append l x b i)

Distinct-append :
    (l : List Pointer) (x : Pointer)
    → Distinct l
    → member x.array x.index l ≡ false
    → Distinct (l ++ x ∷ [])
Distinct-append [] x d h = (refl, tt)
Distinct-append (y ∷ l) x d h =
    (ground (arith, d.0, member-append l x y.array y.index), Distinct-append l x d.1 (ground arith))

-- `Release` of a pointer in use keeps the invariant, with that pointer no longer in use.
pub pool_release-Inv :
    (capacity : ℕ) (p : ObjectPool) (live : ℕ → ℕ → Bool) (x : Pointer)
    → Inv capacity p live
    → live x.array x.index ≡ true
    → Inv capacity (release p x) (set_live live x false)
unfolding release
pool_release-Inv capacity p live x v e = record {
  nodes = v.nodes;
  distinct = Distinct-append p.freelist x v.distinct (ground (arith, v.free_dead x.array x.index));
  free_dead = λ b i h. ground (arith, member-append p.freelist x b i, v.free_dead b i);
  free_carved =
      λ b i h. ground (arith, member-append p.freelist x b i, v.free_carved b i, v.live_carved b i);
  live_carved = λ b i h. ground (arith, v.live_carved b i);
}

-- What `New` promises: the pointer was not in use, lies in its array, and is what is in use in addition.
abbrev pub Made : ℕ → (ℕ → ℕ → Bool) → Pointer × ObjectPool → Type 0
Made capacity live (x, p) =
    (live x.array x.index ≡ false) × (x.index < capacity) × Inv capacity p (set_live live x true)

carved-index :
    (capacity : ℕ) (ns : List MemoryNode) (b i : ℕ)
    → IsNodes capacity ns
    → carved b i ns ≡ true
    → i < capacity
carved-index capacity [] b i v h = absurd v
carved-index capacity (n ∷ ns) b i v h = ground (arith, v.1, v.2 b i)

taken-Made :
    (capacity : ℕ) (p : ObjectPool) (live : ℕ → ℕ → Bool) (x : Pointer) (rest : List Pointer)
    → Inv capacity (record p { freelist = x ∷ rest }) live
    → Made capacity live (x, record p { freelist = rest })
taken-Made capacity p live x rest v = (
  ground (arith, v.free_dead x.array x.index),
  carved-index capacity p.mem_node_list x.array x.index v.nodes
      (ground (arith, v.free_carved x.array x.index)),
  record {
    nodes = v.nodes;
    distinct = v.distinct.1;
    free_dead = λ b i h. ground (arith, v.free_dead b i, v.distinct.0);
    free_carved = λ b i h. ground (arith, v.free_carved b i);
    live_carved = λ b i h. ground (arith, v.live_carved b i, v.free_carved x.array x.index);
  },
)

-- The next object of the latest node
cut-Made :
    (capacity : ℕ) (p : ObjectPool) (live : ℕ → ℕ → Bool) (n : MemoryNode) (ns : List MemoryNode)
    → p.freelist ≡ []
    → IsNodes capacity (n ∷ ns)
    → ((b i : ℕ) → live b i ≡ true → carved b i (n ∷ ns) ≡ true)
    → full capacity n ≡ false
    → Returns (Made capacity live) (node_allocate capacity p n ns)
unfolding node_allocate
cut-Made capacity p live n ns e v w f = rw f (
  ground (arith, w n.mem n.cur_free_idx, v.0, v.2 n.mem n.cur_free_idx),
  ground arith,
  record {
    nodes = (v.0, ground arith, v.2);
    distinct = subst Distinct (sym e) tt;
    free_dead = λ b i h. absurd (none_free b i h);
    free_carved = λ b i h. absurd (none_free b i h);
    live_carved = λ b i h. ground (arith, w b i);
  },
)
  where
    none_free : (b i : ℕ) → member b i p.freelist ≡ true → ⊥
    none_free b i h = ground (arith, subst (λ l. member b i l ≡ true) e h)

if_either :
    {A : Type 0} (P : A → Type 0) (t : Bool) {x y : A}
    → (t ≡ true → P x)
    → (t ≡ false → P y)
    → P (if t then x else y)
if_either P true f g = f refl
if_either P false f g = g refl

allocate_from-Made :
    (capacity : ℕ) (p : ObjectPool) (live : ℕ → ℕ → Bool) (l : List MemoryNode)
    → 0 < capacity
    → p.freelist ≡ []
    → IsNodes capacity l
    → ((b i : ℕ) → live b i ≡ true → carved b i l ≡ true)
    → Returns (Made capacity live) (allocate_from capacity p l)
unfolding allocate_from
allocate_from-Made capacity p live [] c e v w = v
allocate_from-Made capacity p live (n ∷ ns) c e v w =
    if_either (Returns (Made capacity live)) (full capacity n)
      (λ h.
        cut-Made capacity p live (record { mem = size (n ∷ ns); cur_free_idx = 0 }) (n ∷ ns) e
          (refl, omega arith, λ b i g. ground (arith, v.0, v.1, v.2 b i))
          (λ b i g. ground (arith, w b i)) (ground arith))
      (λ h. cut-Made capacity p live n ns e v w h)

-- `New` on a pool that satisfies the invariant, with room for at least one object in a node, returns: no
-- assertion fails, the pointer was not in use and lies inside its array, it is what is in use in
-- addition, and the invariant is kept.
pub pool_allocate_correct :
    (capacity : ℕ) (p : ObjectPool) (live : ℕ → ℕ → Bool)
    → 0 < capacity
    → Inv capacity p live
    → Returns (Made capacity live) (allocate capacity p)
unfolding allocate allocate_free
pool_allocate_correct capacity p live c v = by_freelist p.freelist refl
  where
    by_freelist :
        (l : List Pointer)
        → p.freelist ≡ l
        → Returns (Made capacity live) (allocate_free capacity p l)
    by_freelist [] e = allocate_from-Made capacity p live p.mem_node_list c e v.nodes v.live_carved
    by_freelist (x ∷ rest) e =
        taken-Made capacity p live x rest
          (subst (λ l. Inv capacity (record p { freelist = l }) live) e v)

pub new_pool-Inv : (capacity : ℕ) → Inv capacity (new_pool capacity) (λ _ _. false)
new_pool-Inv capacity = record {
  nodes = (refl, omega arith, λ b i h. ground arith);
  distinct = tt;
  free_dead = λ b i h. refl;
  free_carved = λ b i h. ground arith;
  live_carved = λ b i h. ground arith;
}
