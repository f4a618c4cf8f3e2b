-- ===== src/LinkedList/Methods.antt =====
-- The list against a sequence of items that grows and shrinks at both ends.
use mod_cpp.Common.{ℕ, ◌+◌, ◌-◌, ◌<◌, ◌≡◌, refl, true, false, ◌==◌, if◌then◌else◌, update, arith}
use mod_cpp.Common.Outcome.{ok, thrown, Returns}
use mod_cpp.LinkedList.{Nodes, head, new, push_back, push_front, pop_back, pop_front, empty}
use mod_cpp.LinkedList.Ring.{
  IsRing, node_back, linked_back-IsRing, node_front, push_front-IsRing, node_unback,
  unlinked_back-IsRing, node_unfront, unlinked_front-IsRing,
}

-- The list holds `size` items, and `item i` at the place `i` from 0.
pub record Holds {A : Type 0} (s : Nodes A) (size : ℕ) (item : ℕ → A) : Type 0 where
  pub node : ℕ → ℕ
  pub ring : IsRing s size node
  pub items : (i : ℕ) → i < size → s.data_at (node (i + 1)) ≡ item i

module _ {A : Type 0} (s : Nodes A) (size : ℕ) (item : ℕ → A) (v : Holds s size item) where
  r : IsRing s size v.node
  r = v.ring

  tail_of : s.prev head ≡ v.node size
  unfolding r
  tail_of = ground (arith, r.prevs size, r.stop)

  -- `push_front` puts the item before the others.
  pub push_front_correct :
      (a : A) → Holds (push_front s a) (size + 1) (λ i. if i == 0 then a else item (i - 1))
  unfolding push_front
  push_front_correct a = record {
    node = node_front s size v.node r;
    ring = push_front-IsRing s size v.node r a;
    items = λ i h. ground (arith, v.items (i - 1), r.old (i - 1), r.old i);
  }

  -- `push_back` returns and puts the item behind the others; every node it locks exists.
  pub push_back_correct :
      (a : A)
      → Returns (λ t. Holds t (size + 1) (λ i. if i == size then a else item i)) (push_back s a)
  unfolding push_back
  push_back_correct a = rw tail_of (
      rw tail_living (record {
        node = node_back s size v.node r;
        ring = linked_back-IsRing s size v.node r a;
        items = λ i h. ground (arith, v.items i, r.old (i + 1));
      }))
    where
      tail_living : update s.living s.node_cnt true (v.node size) ≡ true
      tail_living = ground (arith, r.lives size)

  last_is_head : (v.node size == head) ≡ (size == 0)
  last_is_head = ground (arith, r.start, r.distinct 0 size)

  pub empty_correct : empty s ≡ ok (size == 0)
  unfolding empty
  empty_correct = rw tail_of (rw (r.lives size (omega arith)) (ground (arith, last_is_head)))

  -- On a list with items, `pop_back` returns the last item and leaves the others; every node it locks
  -- exists.
  pub pop_back_correct :
      0 < size → Returns (λ q. (q.0 ≡ item (size - 1)) × Holds q.1 (size - 1) item) (pop_back s)
  unfolding pop_back
  pop_back_correct b = rw empty_correct (
      rw some_item (
        rw tail_of (
          rw (r.lives size (omega arith)) (
            rw before (
              rw (r.lives (size - 1) (omega arith)) (
                ground (arith, v.items (size - 1)),
                record {
                  node = node_unback s size v.node r;
                  ring = unlinked_back-IsRing s size v.node r b;
                  items = λ i h. ground (arith, v.items i);
                },
              ))))))
    where
      some_item : (size == 0) ≡ false
      some_item = ground arith

      before : s.prev (v.node size) ≡ v.node (size - 1)
      before = ground (arith, r.prevs (size - 1))

  -- On a list with items, `pop_front` returns the first item and leaves the others.
  pub pop_front_correct :
      0 < size
      → Returns (λ q. (q.0 ≡ item 0) × Holds q.1 (size - 1) (λ i. item (i + 1))) (pop_front s)
  unfolding pop_front
  pop_front_correct b = rw empty_correct (
      rw some_item (
        rw first (
          rw second (
            v.items 0 b,
            record {
              node = node_unfront s size v.node r;
              ring = unlinked_front-IsRing s size v.node r b;
              items = λ i h. ground (arith, v.items (i + 1));
            },
          ))))
    where
      some_item : (size == 0) ≡ false
      some_item = ground arith

      first : s.next head ≡ v.node 1
      first = ground (arith, r.nexts 0, r.start)

      second : s.next (v.node 1) ≡ v.node 2
      second = ground (arith, r.nexts 1)

  pub pop_empty :
      size ≡ 0 → (pop_back s ≡ thrown "list is empty") × (pop_front s ≡ thrown "list is empty")
  unfolding pop_back pop_front
  pop_empty b = rw empty_correct (rw no_item (refl, refl))
    where
      no_item : (size == 0) ≡ true
      no_item = ground arith

pub new_correct : {A : Type 0} (d item : ℕ → A) → Holds (new d) 0 item
unfolding new
new_correct d item = record {
  node = λ _. head;
  ring = record {
    start = refl;
    stop = refl;
    nexts = λ i h. refl;
    prevs = λ i h. refl;
    distinct = λ i j h k. absurd (omega arith);
    old = λ i h. omega arith;
    lives = λ i h. refl;
  };
  items = λ i h. absurd (omega arith);
}
