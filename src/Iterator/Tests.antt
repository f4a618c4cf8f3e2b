-- ===== src/Iterator/Tests.antt =====
-- `iterator_rountine`, and the theorems at short arrays.
use mod_cpp.Common.{ℕ, zero, suc, ◌+◌, ◌≡◌, refl, ◌==◌, if◌then◌else◌, List, [], ◌∷◌, arith}
use mod_cpp.Common.Int.{pos}
use mod_cpp.Common.Outcome.{ok, ◌>>=◌, Returns}
use mod_cpp.Iterator.{Iter, ministl_sort, iterator_rountine}
use mod_cpp.Iterator.Sort.{Sorts, ministl_sort_correct}

unfoldable elements : ℕ → ℕ → (ℕ → ℕ) → List ℕ
elements zero i d = []
elements (suc k) i d = d i ∷ elements k (i + 1) d

routine_sorts :
    (do d ← iterator_rountine (λ _. 0); ok (elements 10 0 d))
    ≡ ok (1 ∷ 2 ∷ 3 ∷ 4 ∷ 5 ∷ 6 ∷ 7 ∷ 8 ∷ 9 ∷ 10 ∷ [])
unfolding elements iterator_rountine
routine_sorts = refl

abbrev three : ℕ → ℕ
three i = if i == 0 then 2 else if i == 1 then 3 else 1

ministl_sort_correct_example : Returns (Sorts 3 0 3 three) (ministl_sort 3 4 0 3 three)
ministl_sort_correct_example = ministl_sort_correct 3 0 3 three (omega arith)

abbrev second : Iter
second = record { idx = pos 1; self = 0 }
