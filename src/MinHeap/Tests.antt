-- ===== src/MinHeap/Tests.antt =====
-- `heap_routine`, and the theorems at a heap of three items.
use mod_cpp.Common.{
  ℕ, zero, suc, ◌+◌, ◌≤◌, ◌<◌, ◌≡◌, refl, ◌==◌, if◌then◌else◌, List, [], ◌∷◌, arith,
}
use mod_cpp.Common.Outcome.{Outcome, ok, undefined, ◌>>=◌, Returns}
use mod_cpp.MinHeap.{Heap, new, top, pop, push, size, from_vector}
use mod_cpp.MinHeap.Order.{IsOrdered}
use mod_cpp.MinHeap.Items.{one_if}
use mod_cpp.MinHeap.Methods.{IsHeap, items, push_correct, pop_correct}

-- `while (heap.size())`, by fuel: each round takes an item away.
unfoldable drain : ℕ → Heap → Outcome (List ℕ)
unfolding top pop size
drain zero h = undefined
drain (suc fuel) h =
    let rest = pop h >>= drain fuel in
    if size h == 0 then ok [] else do a ← top h; l ← rest; ok (a ∷ l)

-- The numbers of `heap_routine`, each with 2 added.
abbrev routine_nums : List ℕ
routine_nums = 4 ∷ 5 ∷ 6 ∷ 4 ∷ 10 ∷ 7 ∷ 5 ∷ 7 ∷ 8 ∷ []

unfoldable heap_routine : (ℕ → ℕ) → Outcome (List ℕ)
unfolding from_vector push drain
heap_routine d = do
  a ← from_vector 1000 routine_nums d
  b ← push 1000 a 12
  c ← push 1000 b 0
  drain (suc (size c)) c

heap_routine_undefined : heap_routine (λ _. 0) ≡ undefined
unfolding heap_routine
heap_routine_undefined = refl

unfoldable sorted : List ℕ → Heap → Outcome (List ℕ)
unfolding push drain
sorted [] h = drain (suc (size h)) h
sorted (a ∷ l) h = do t ← push 1000 h a; sorted l t

pushed_and_drained :
    sorted routine_nums (new (λ _. 0)) ≡ ok (4 ∷ 4 ∷ 5 ∷ 5 ∷ 6 ∷ 7 ∷ 7 ∷ 8 ∷ 10 ∷ [])
unfolding sorted
pushed_and_drained = refl

-- 1, 3, 2
abbrev heap : Heap
heap = record { data_at = λ i. if i == 1 then 1 else if i == 2 then 3 else 2; last = 3 }

heap-IsHeap : IsHeap heap
unfolding IsHeap IsOrdered
heap-IsHeap i b h = ground arith

push_correct_example :
    Returns
      (λ t.
        IsHeap t
        × (size t ≡ size heap + 1)
        × ((v : ℕ) → items t v ≡ items heap v + one_if (0 == v)))
      (push 1000 heap 0)
push_correct_example = push_correct 1000 heap 0 heap-IsHeap (omega arith)

pop_correct_example :
    Returns
      (λ (a, t).
        ((i : ℕ) → 0 < i → i ≤ 3 → a ≤ heap.data_at i)
        × IsHeap t
        × (size t + 1 ≡ size heap)
        × ((v : ℕ) → items t v + one_if (a == v) ≡ items heap v))
      (do a ← top heap; t ← pop heap; ok (a, t))
pop_correct_example = pop_correct heap heap-IsHeap (omega arith)
