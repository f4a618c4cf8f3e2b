-- ===== src/HashTable/Tests.antt =====
-- Runs of the table, and the theorems at a table of four chains.
use mod_cpp.Common.{ℕ, ◌%◌, ◌≡◌, [], ◌∷◌, none, ite, update, arith, ℕ_discrete}
use mod_cpp.Common.Outcome.{assert_failed, Returns}
use mod_cpp.HashTable.{HashTable, subscript, erase, count}
use mod_cpp.HashTable.Laws.{
  Subscripted, find, IsValid, subscript_correct, erase_correct, hash_out_of_range,
}
use mod_cpp.HashTable.Chain
use mod_cpp.HashTable.Chain.{Distinct}

abbrev four : ℕ → ℕ
four k = k % 4

abbrev sample : HashTable ℕ ℕ
sample = record { table = update (λ _. []) 1 ((5, 50) ∷ (9, 90) ∷ []); len = 2 }

subscript_correct_example :
    Returns (Subscripted ℕ_discrete 7 four 4 sample 9) (subscript ℕ_discrete 7 four 4 sample 9)
subscript_correct_example = subscript_correct ℕ_discrete 7 four 4 sample 9 (omega arith)

sample-IsValid : (i : ℕ) → Distinct ℕ_discrete (sample.table i)
unfolding Chain.lookup Chain.Distinct ℕ_discrete
sample-IsValid i = ground arith

erase_correct_example :
    Returns
      (λ t.
        ((j : ℕ)
          → find ℕ_discrete 7 four 4 t j
            ≡ ite (ℕ_discrete 9 j) none (find ℕ_discrete 7 four 4 sample j))
        × IsValid ℕ_discrete 7 four 4 t
        × (t.len ≡ sample.len))
      (erase ℕ_discrete 7 four 4 sample 9)
erase_correct_example = erase_correct ℕ_discrete 7 four 4 sample 9 sample-IsValid (omega arith)

hash_out_of_range_example :
    (subscript ℕ_discrete 7 four 1 sample 9 ≡ assert_failed)
    × (erase ℕ_discrete 7 four 1 sample 9 ≡ assert_failed)
    × (count ℕ_discrete 7 four 1 sample 9 ≡ assert_failed)
hash_out_of_range_example = hash_out_of_range ℕ_discrete 7 four 1 sample 9 (omega arith)
