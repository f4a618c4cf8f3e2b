-- ===== src/ObjectPool/Methods.antt =====
-- `New` and `Release` keep the invariant.
use mod_cpp.Common.{
  ℕ, suc, ◌+◌, ◌-◌, ◌*◌, ◌%◌, ◌≤◌, ◌<◌, ◌≡◌, refl, sym, ap, Bool, true, false, ltb, ◌==◌, update,
  Bool-cases, Option, some, inl, inr, List, [], ◌∷◌, arith,
}
use native.Mathlib.Nat.{mul_comm}
use mathlib.Core.Path.{subst}
use mod_cpp.Common.Outcome.{ok, Returns}
use mod_cpp.ObjectPool.{
  MemoryNode, ObjectPool, node_size, to_object, to_rawmemory, pointer_size, has_free_space,
  allocate_memory, get_lasted_node, create_memory_node, carve, new_from_node, new_from, new_object,
  release, new_pool,
}
use mod_cpp.ObjectPool.Invariant.{IsChain-update, member, owned, claimed, IsCut, taken, Inv}

module _ {chunk_size capacity : ℕ} {p : ObjectPool} {live : ℕ → Bool} where
  -- `Release` of an object that is in use puts its chunk on the free list.
  pub release-Inv :
      (cs : List ℕ) (c : ℕ)
      → Inv chunk_size capacity p live cs
      → live c ≡ true
      → Inv chunk_size capacity (release p (to_object c)) (update live c false) (c ∷ cs)
  unfolding release
  release-Inv cs c v e =
      let there : to_rawmemory (to_object c) ≡ c = omega arith in
      let new_here : member c cs ≡ false = ground (arith, v.free_dead c) in
      rw there (record {
        nodes = v.nodes;
        chain =
            (refl, rw self (IsChain-update p.links p.free_list cs c p.free_list new_here v.chain));
        distinct = (new_here, v.distinct);
        free_dead = λ a. ground (arith, v.free_dead a);
        apart = λ a b h k. ground (arith, v.apart a b);
        inside = λ a b h k. ground (arith, v.inside a b);
      })
    where
      self : (c == c) ≡ true
      self = ground arith

  pop-Inv :
      (cs : List ℕ) (c : ℕ)
      → Inv chunk_size capacity p live (c ∷ cs)
      → Inv chunk_size capacity (record p { free_list = p.links c }) (update live c true) cs
  pop-Inv cs c v = record {
    nodes = v.nodes;
    chain = v.chain.1;
    distinct = v.distinct.1;
    free_dead = λ a. ground (arith, v.free_dead a, v.distinct.0);
    apart = λ a b h k. ground (arith, v.apart a b);
    inside = λ a b h k. ground (arith, v.inside a b);
  }

mod-mul : (k n : ℕ) → 0 < n → (k * n) % n ≡ 0
mod-mul k n h = grind arith

mul_step : (k cap n : ℕ) → k < cap → k * n + n ≤ n * cap
mul_step k cap n h = grind arith

mul_mono : (k cap n : ℕ) → cap ≤ k → n * cap ≤ k * n
mul_mono k cap n h = grind arith

module _ (chunk_size capacity : ℕ) (pos : 0 < chunk_size) where
  has_free_space_lem :
      (n : MemoryNode) (ns : List MemoryNode) (c : IsCut chunk_size capacity n ns)
      → has_free_space chunk_size capacity n ≡ ok (ltb c.cut capacity)
  unfolding has_free_space
  has_free_space_lem n ns c =
      let exact : ((n.current - n.mem) % chunk_size == 0) ≡ true =
        ground (arith, mod-mul c.cut chunk_size pos) in
      rw exact (ap ok same)
    where
      same : ltb n.current (n.mem + node_size chunk_size capacity) ≡ ltb c.cut capacity
      same = elim (Bool-cases (ltb c.cut capacity)) [
        | inl below ↦ ground (arith, c.at, mul_step c.cut capacity chunk_size)
        | inr above ↦ ground (arith, c.at, mul_mono c.cut capacity chunk_size)
      ]

  -- A node with space left.
  record IsReady (n : MemoryNode) (ns : List MemoryNode) : Type 0 where
    cuts : IsCut chunk_size capacity n ns
    room : cuts.cut < capacity

  carve-ok :
      (new_array : List MemoryNode → Option ℕ) (p : ObjectPool) (n : MemoryNode)
      (ns : List MemoryNode)
      → IsReady n ns
      → carve chunk_size capacity new_array p (n ∷ ns)
        ≡ ok (
          to_object n.current,
          record p { memory_node_list = record n { current = n.current + chunk_size } ∷ ns },
        )
  unfolding carve get_lasted_node allocate_memory
  carve-ok new_array p n ns r =
      let room : ltb r.cuts.cut capacity ≡ true = ground (arith, r.room) in
      rw (has_free_space_lem n ns r.cuts, room)

  step-IsCut :
      (n : MemoryNode) (ns : List MemoryNode)
      → IsReady n ns
      → IsCut chunk_size capacity (record n { current = n.current + chunk_size }) ns
  step-IsCut n ns r = record {
    cut = suc r.cuts.cut;
    at = omega (arith, r.cuts.at);
    within = r.room;
    apart = r.cuts.apart;
  }

  fits :
      (n : MemoryNode) (ns : List MemoryNode)
      → IsReady n ns
      → n.current + chunk_size ≤ n.mem + node_size chunk_size capacity
  fits n ns r = omega (arith, r.cuts.at, mul_step r.cuts.cut capacity chunk_size r.room)

  -- A chunk cut from a node with space left is put to use.
  carve-Inv :
      (p : ObjectPool) (live : ℕ → Bool) (cs : List ℕ) (n : MemoryNode) (ns : List MemoryNode)
      → Inv chunk_size capacity (record p { memory_node_list = n ∷ ns }) live cs
      → IsReady n ns
      → (live n.current ≡ false)
        × Inv chunk_size capacity
            (record p { memory_node_list = record n { current = n.current + chunk_size } ∷ ns })
            (update live n.current true)
            cs
  carve-Inv p live cs n ns v r =
      let cell = fits n ns r in
      let start : n.mem ≤ n.current = omega (arith, r.cuts.at) in
      let unowned : owned chunk_size capacity ns n.current ≡ false =
        r.cuts.apart n.current start (omega arith) in
      let unused : taken live cs n.current ≡ false =
        ground (arith, v.inside n.current n.current, start, unowned) in
      (
        ground arith,
        record {
          nodes = step-IsCut n ns r;
          chain = v.chain;
          distinct = v.distinct;
          free_dead = λ a h. ground (arith, v.free_dead a);
          apart = λ a b h k lt.
              ground (arith, v.apart a b, v.inside b b, v.inside a n.current, r.cuts.apart b);
          inside = λ a b h k lt. ground (arith, v.inside a b);
        },
      )

-- What `new uint8_t[node_size()]` promises where it returns: memory apart from the other nodes.
pub record IsNewArray (chunk_size capacity : ℕ) (new_array : List MemoryNode → Option ℕ)
    : Type 0 where
  pub apart :
      (ns : List MemoryNode) (m a : ℕ)
      → new_array ns ≡ some m
      → m ≤ a
      → a < m + node_size chunk_size capacity
      → owned chunk_size capacity ns a ≡ false

-- What `New` makes of the pool: the object is in a chunk that held none, and now holds one; no other
-- chunk changes hands.
pub record Made (chunk_size capacity : ℕ) (live : ℕ → Bool) (r : ℕ × ObjectPool) : Type 0 where
  pub chunk : ℕ
  pub object : r.0 ≡ to_object chunk
  pub unused : live chunk ≡ false
  pub free : List ℕ
  pub kept : Inv chunk_size capacity r.1 (update live chunk true) free

module _ {chunk_size capacity : ℕ} {new_array : List MemoryNode → Option ℕ}
    (law : IsNewArray chunk_size capacity new_array) (pos : 0 < chunk_size)
    (some_chunks : 0 < capacity) where
  owned-claimed :
      (n : MemoryNode) (ns : List MemoryNode) (a : ℕ)
      → IsCut chunk_size capacity n ns
      → claimed chunk_size capacity (n ∷ ns) a ≡ true
      → owned chunk_size capacity (n ∷ ns) a ≡ true
  owned-claimed n ns a c h = elim (Bool-cases (ltb c.cut capacity)) [
    | inl below ↦ ground (arith, c.at, mul_step c.cut capacity chunk_size)
    | inr full ↦
        let all : c.cut ≡ capacity = ground (arith, c.within) in
        ground (arith, c.at, mul_comm capacity chunk_size, ap (λ (k : ℕ). k * chunk_size) all)
  ]

  grow-Inv :
      (p : ObjectPool) (live : ℕ → Bool) (cs : List ℕ) (n : MemoryNode) (ns : List MemoryNode)
      (m : ℕ)
      → Inv chunk_size capacity (record p { memory_node_list = n ∷ ns }) live cs
      → new_array (n ∷ ns) ≡ some m
      → Inv chunk_size capacity
          (record p { memory_node_list = record { mem = m; current = m } ∷ n ∷ ns })
          live
          cs
  grow-Inv p live cs n ns m v e = record {
    nodes = record {
      cut = 0;
      at = omega arith;
      within = omega arith;
      apart = λ a. law.apart (n ∷ ns) m a e;
    };
    chain = v.chain;
    distinct = v.distinct;
    free_dead = v.free_dead;
    apart = v.apart;
    inside = λ a b h k lt. ground (arith, owned-claimed n ns b v.nodes (v.inside a b h k lt));
  }

  new_from_node_lem :
      (p : ObjectPool) (live : ℕ → Bool) (cs : List ℕ) (ns : List MemoryNode) (m : ℕ)
      → p.memory_node_list ≡ ns
      → Inv chunk_size capacity (record p { memory_node_list = ns }) live cs
      → new_array ns ≡ some m
      → Returns (Made chunk_size capacity live) (new_from_node chunk_size capacity new_array p)
  unfolding new_from_node get_lasted_node create_memory_node grow-Inv
  new_from_node_lem p live cs [] m e w given = absurd w.nodes
  new_from_node_lem p live cs (n ∷ ns) m e w given =
      rw (e, has_free_space_lem chunk_size capacity pos n ns w.nodes)
        (elim (Bool-cases (ltb w.nodes.cut capacity)) [
          | inl below ↦
              let ready : IsReady chunk_size capacity pos n ns = record {
                cuts = w.nodes;
                room = ground arith;
              } in
              let (unused, kept) = carve-Inv chunk_size capacity pos p live cs n ns w ready in
              rw (below, carve-ok chunk_size capacity pos new_array p n ns ready)
                (record {
                  chunk = n.current;
                  object = refl;
                  unused = unused;
                  free = cs;
                  kept = kept;
                })
          | inr full ↦
              let node : MemoryNode = record { mem = m; current = m } in
              let grown = grow-Inv p live cs n ns m w given in
              let ready : IsReady chunk_size capacity pos node (n ∷ ns) = record {
                cuts = grown.nodes;
                room = some_chunks;
              } in
              let (unused, kept) =
                carve-Inv chunk_size capacity pos p live cs node (n ∷ ns) grown ready in
              rw (full, given, carve-ok chunk_size capacity pos new_array p node (n ∷ ns) ready)
                (record { chunk = m; object = refl; unused = unused; free = cs; kept = kept })
        ])

  -- `New` on a pool that satisfies the invariant returns, where there is memory for a node: no assertion
  -- fails, the object lies in a chunk that held none, that chunk overlaps no other, exactly it is in use
  -- in addition, and the invariant is kept.
  pub new_object_correct :
      (p : ObjectPool) (live : ℕ → Bool) (cs : List ℕ) (m : ℕ)
      → Inv chunk_size capacity p live cs
      → new_array p.memory_node_list ≡ some m
      → Returns (Made chunk_size capacity live) (new_object chunk_size capacity new_array p)
  unfolding new_object new_from pop-Inv
  new_object_correct p live [] m v given =
      subst Goal (sym v.chain) (new_from_node_lem p live [] p.memory_node_list m refl v given)
    where
      Goal : Option ℕ → Type 0
      Goal o = Returns (Made chunk_size capacity live) (new_from chunk_size capacity new_array p o)
  new_object_correct p live (c ∷ cs) m v given = subst Goal (sym v.chain.0) (record {
    chunk = c;
    object = refl;
    unused = ground (arith, v.free_dead c);
    free = cs;
    kept = pop-Inv cs c v;
  })
    where
      Goal : Option ℕ → Type 0
      Goal o = Returns (Made chunk_size capacity live) (new_from chunk_size capacity new_array p o)

  -- `Release` of an object followed by `New` gives the same address again, and the pool has the
  -- free list and the nodes that it had before.
  pub new_object-release :
      (p : ObjectPool) (obj : ℕ)
      → pointer_size ≤ obj
      → Returns
          (λ r.
            (r.0 ≡ obj)
            × (r.1.free_list ≡ p.free_list)
            × (r.1.memory_node_list ≡ p.memory_node_list))
          (new_object chunk_size capacity new_array (release p obj))
  unfolding new_object new_from release
  new_object-release p obj h = (omega arith, ground arith, refl)

  -- The constructor makes a pool with no object in use, where there is memory for its node.
  pub new_pool_correct :
      (m : ℕ)
      → new_array [] ≡ some m
      → Returns
          (λ p. Inv chunk_size capacity p (λ _. false) [])
          (new_pool chunk_size capacity new_array)
  unfolding new_pool create_memory_node
  new_pool_correct m given = rw given (record {
    nodes = record { cut = 0; at = omega arith; within = omega arith; apart = λ a h k. refl };
    chain = refl;
    distinct = tt;
    free_dead = λ a h. cc;
    apart = λ a b h. cc;
    inside = λ a b h. cc;
  })
