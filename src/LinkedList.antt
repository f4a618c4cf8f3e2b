-- ===== src/LinkedList.antt =====
-- linked_list.cc: `linked_list`, a ring of nodes through `next` and `prev` with a head that holds no
-- item. Nodes have numbers, and the head is 0. A node that is taken out of the ring is freed at the end
-- of the method, since `next` was the only shared pointer to it.
pub mod Ring
pub mod Methods
mod Tests
use mod_cpp.Common.{ℕ, zero, suc, ◌+◌, Bool, true, false, ltb, ◌==◌, if◌then◌else◌, update}
use mod_cpp.Common.Outcome.{Outcome, ok, undefined, ◌>>=◌, ◌>>◌, throw_if}

-- `node_cnt` numbers the next node; `living` says which nodes exist.
pub record Nodes (A : Type 0) : Type 0 where
  pub data_at : ℕ → A
  pub next : ℕ → ℕ
  pub prev : ℕ → ℕ
  pub living : ℕ → Bool
  pub node_cnt : ℕ

abbrev pub head : ℕ
head = 0

module _ {A : Type 0} where
  -- `linked_list()`, where the nodes held anything before
  unfoldable pub new : (ℕ → A) → Nodes A
  new d = record {
    data_at = d;
    next = λ _. head;
    prev = λ _. head;
    living = λ i. i == head;
    node_cnt = 1;
  }

  -- `p.lock()` and the access through it, which needs a node that exists
  abbrev pub lock : Nodes A → ℕ → Outcome ℕ
  lock s i = if s.living i then ok i else undefined

  abbrev pub set_next : Nodes A → ℕ → ℕ → Nodes A
  set_next s i j = record s { next = update s.next i j }

  abbrev pub set_prev : Nodes A → ℕ → ℕ → Nodes A
  set_prev s i j = record s { prev = update s.prev i j }

  -- `make_shared<node>(data)`: the node `s.node_cnt`
  abbrev pub make_node : Nodes A → A → Nodes A
  make_node s a = record s {
    data_at = update s.data_at s.node_cnt a;
    living = update s.living s.node_cnt true;
    node_cnt = s.node_cnt + 1;
  }

  -- the end of a method, whose local pointer to the node was the last one
  abbrev pub free : Nodes A → ℕ → Nodes A
  free s i = record s { living = update s.living i false }

  unfoldable pub push_back : Nodes A → A → Outcome (Nodes A)
  push_back s a = do
    let new_node = s.node_cnt
    let s1 = make_node s a
    tail ← lock s1 (s1.prev head)
    let s2 = set_prev s1 new_node tail
    let s3 = set_next s2 tail new_node
    let s4 = set_next s3 new_node head
    ok (set_prev s4 head new_node)

  unfoldable pub empty : Nodes A → Outcome Bool
  empty s = do tail ← lock s (s.prev head); ok (tail == head)

  unfoldable pub pop_back : Nodes A → Outcome (A × Nodes A)
  unfolding empty
  pop_back s = do
    e ← empty s
    throw_if e "list is empty"
    tail ← lock s (s.prev head)
    second_tail ← lock s (s.prev tail)
    let s1 = set_prev s head second_tail
    let s2 = set_next s1 second_tail head
    ok (s2.data_at tail, free s2 tail)

  unfoldable pub push_front : Nodes A → A → Nodes A
  push_front s a =
      let new_node = s.node_cnt in
      let s1 = make_node s a in
      let second_head = s1.next head in
      let s2 = set_prev s1 new_node head in
      let s3 = set_next s2 head new_node in
      let s4 = set_next s3 new_node second_head in set_prev s4 second_head new_node

  unfoldable pub pop_front : Nodes A → Outcome (A × Nodes A)
  unfolding empty
  pop_front s = do
    e ← empty s
    throw_if e "list is empty"
    let second_head = s.next head
    let third_head = s.next second_head
    let s1 = set_next s head third_head
    let s2 = set_prev s1 third_head head
    ok (s2.data_at second_head, free s2 second_head)
