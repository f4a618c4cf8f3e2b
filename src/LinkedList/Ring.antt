-- ===== src/LinkedList/Ring.antt =====
-- The ring: the nodes in order, by their places.
use mod_cpp.Common.{ℕ, ◌+◌, ◌-◌, ◌≤◌, ◌<◌, ◌≡◌, ◌≢◌, true, ◌==◌, if◌then◌else◌, arith}
use mod_cpp.LinkedList.{Nodes, head, set_next, set_prev, make_node, free, push_front}

-- The head is at the places 0 and `size + 1`, and the items are at those between.
pub record IsRing {A : Type 0} (s : Nodes A) (size : ℕ) (node : ℕ → ℕ) : Type 0 where
  pub start : node 0 ≡ head
  pub stop : node (size + 1) ≡ head
  pub nexts : (i : ℕ) → i ≤ size → s.next (node i) ≡ node (i + 1)
  pub prevs : (i : ℕ) → i ≤ size → s.prev (node (i + 1)) ≡ node i
  pub distinct : (i j : ℕ) → i < j → j ≤ size → node i ≢ node j
  pub old : (i : ℕ) → i ≤ size → node i < s.node_cnt
  pub lives : (i : ℕ) → i ≤ size → s.living (node i) ≡ true

module _ {A : Type 0} (s : Nodes A) (size : ℕ) (node : ℕ → ℕ) (v : IsRing s size node) where
  abbrev pub linked_back : A → Nodes A
  linked_back a =
      let s1 = make_node s a in
      let s2 = set_prev s1 s.node_cnt (node size) in
      let s3 = set_next s2 (node size) s.node_cnt in
      set_prev (set_next s3 s.node_cnt head) head s.node_cnt

  abbrev pub node_back : ℕ → ℕ
  node_back i = if i == size + 1 then s.node_cnt else if i == size + 2 then head else node i

  pub linked_back-IsRing : (a : A) → IsRing (linked_back a) (size + 1) node_back
  linked_back-IsRing a = record {
    start = ground (arith, v.start);
    stop = ground arith;
    nexts = λ i h. ground (arith, v.nexts i, v.old i, v.old size, v.distinct i size, v.start);
    prevs = λ i h. ground (arith, v.prevs i, v.old (i + 1), v.distinct 0 (i + 1), v.start, v.old 0);
    distinct = λ i j h k. ground (arith, v.distinct i j h, v.old i, v.old j);
    old = λ i h. ground (arith, v.old i);
    lives = λ i h. ground (arith, v.lives i);
  }

  abbrev pub node_front : ℕ → ℕ
  node_front i = if i == 0 then head else if i == 1 then s.node_cnt else node (i - 1)

  pub push_front-IsRing : (a : A) → IsRing (push_front s a) (size + 1) node_front
  unfolding push_front
  push_front-IsRing a = record {
    start = ground arith;
    stop = ground (arith, v.stop);
    nexts = λ i h.
        ground (
          arith,
          v.nexts (i - 1),
          v.nexts 0,
          v.old (i - 1),
          v.old 0,
          v.distinct 0 (i - 1),
          v.start,
        );
    prevs = λ i h. ground (
      arith,
      v.prevs (i - 1),
      v.old i,
      v.old 1,
      v.distinct 1 i,
      v.distinct 0 1,
      v.prevs i,
      v.nexts 0,
      v.start,
      v.stop,
    );
    distinct = λ i j h k.
        ground (arith, v.distinct (i - 1) (j - 1), v.old (i - 1), v.old (j - 1), v.start, v.old 0);
    old = λ i h. ground (arith, v.old (i - 1), v.old 0, v.start);
    lives = λ i h. ground (arith, v.lives (i - 1), v.lives 0, v.old 0, v.start);
  }

  -- The ring without its last item
  abbrev pub unlinked_back : Nodes A
  unlinked_back =
      free (set_next (set_prev s head (node (size - 1))) (node (size - 1)) head) (node size)

  abbrev pub node_unback : ℕ → ℕ
  node_unback i = if i == size then head else node i

  pub unlinked_back-IsRing : 0 < size → IsRing unlinked_back (size - 1) node_unback
  unlinked_back-IsRing b = record {
    start = ground (arith, v.start);
    stop = ground arith;
    nexts = λ i h. ground (arith, v.nexts i, v.distinct i (size - 1));
    prevs = λ i h. ground (arith, v.prevs i, v.distinct 0 (i + 1), v.start);
    distinct = λ i j h k. ground (arith, v.distinct i j h);
    old = λ i h. ground (arith, v.old i);
    lives = λ i h. ground (arith, v.lives i, v.distinct i size);
  }

  -- The ring without its first item
  abbrev pub unlinked_front : Nodes A
  unlinked_front = free (set_prev (set_next s head (node 2)) (node 2) head) (node 1)

  abbrev pub node_unfront : ℕ → ℕ
  node_unfront i = if i == 0 then head else node (i + 1)

  pub unlinked_front-IsRing : 0 < size → IsRing unlinked_front (size - 1) node_unfront
  unlinked_front-IsRing b = record {
    start = ground arith;
    stop = ground (arith, v.stop);
    nexts = λ i h. ground (arith, v.nexts (i + 1), v.distinct 0 (i + 1), v.start);
    prevs = λ i h.
        ground (arith, v.prevs (i + 1), v.distinct 2 (i + 2), v.distinct 0 2, v.start, v.stop);
    distinct = λ i j h k. ground (arith, v.distinct (i + 1) (j + 1), v.distinct 0 (j + 1), v.start);
    old = λ i h. ground (arith, v.old (i + 1), v.old 0, v.start);
    lives = λ i h.
        ground (arith, v.lives (i + 1), v.distinct 1 (i + 1), v.lives 0, v.distinct 0 1, v.start);
  }
