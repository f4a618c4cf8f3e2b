-- ===== src/LinkedList/Tests.antt =====
-- `linked_list_routine`, and the theorems at a list of two items.
use mod_cpp.Common.{ℕ, zero, suc, ◌+◌, ◌≡◌, refl, true, ◌==◌, if◌then◌else◌, arith}
use mod_cpp.Common.Outcome.{Outcome, ok, ◌>>=◌, ◌>>◌, assert, Returns}
use mod_cpp.LinkedList.{Nodes, new, push_back, pop_front, empty}
use mod_cpp.LinkedList.Methods.{Holds, push_back_correct, pop_front_correct}

unfoldable push_loop : ℕ → ℕ → Nodes ℕ → Outcome (Nodes ℕ)
unfolding push_back
push_loop zero i s = ok s
push_loop (suc k) i s = do t ← push_back s i; push_loop k (i + 1) t

unfoldable pop_loop : ℕ → ℕ → Nodes ℕ → Outcome (Nodes ℕ)
unfolding pop_front
pop_loop zero i s = ok s
pop_loop (suc k) i s = do (ans, t) ← pop_front s; assert (ans == i); pop_loop k (i + 1) t

unfoldable linked_list_routine : Outcome (Unit {0})
unfolding new push_loop pop_loop empty
linked_list_routine = do
  s ← push_loop 10 0 (new (λ _. 0))
  t ← pop_loop 10 0 s
  e ← empty t
  assert e

-- All its assertions hold.
linked_list_routine_passes : linked_list_routine ≡ ok tt
unfolding linked_list_routine
linked_list_routine_passes = refl

-- 7 in the node 2, then 8 in the node 1
abbrev two : Nodes ℕ
two = record {
  data_at = λ i. if i == 2 then 7 else 8;
  next = λ i. if i == 0 then 2 else if i == 2 then 1 else 0;
  prev = λ i. if i == 0 then 1 else if i == 1 then 2 else 0;
  living = λ _. true;
  node_cnt = 3;
}

abbrev two_items : ℕ → ℕ
two_items i = if i == 0 then 7 else 8

two-Holds : Holds two 2 two_items
two-Holds = record {
  node = λ i. if i == 1 then 2 else if i == 2 then 1 else 0;
  ring = record {
    start = refl;
    stop = refl;
    nexts = λ i h. ground arith;
    prevs = λ i h. ground arith;
    distinct = λ i j h k. ground arith;
    old = λ i h. ground arith;
    lives = λ i h. refl;
  };
  items = λ i h. ground arith;
}

push_back_correct_example :
    Returns (λ t. Holds t 3 (λ i. if i == 2 then 9 else two_items i)) (push_back two 9)
push_back_correct_example = push_back_correct two 2 two_items two-Holds 9

pop_front_correct_example :
    Returns (λ q. (q.0 ≡ 7) × Holds q.1 1 (λ i. two_items (i + 1))) (pop_front two)
pop_front_correct_example = pop_front_correct two 2 two_items two-Holds (omega arith)
