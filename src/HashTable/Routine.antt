-- ===== src/HashTable/Routine.antt =====
-- `hash_table_routine`, with its hash of strings. A string is the list of its character codes.
use mod_cpp.Common.{ℕ, ◌+◌, ◌%◌, ◌^◌, ◌==◌, ◌≡◌, refl, List, [], ◌∷◌, ℕ_discrete}
use mod_cpp.Common.Outcome.{Outcome, ok, ◌>>=◌, ◌>>◌, assert}
use mod_cpp.HashTable.{HashTable, new, subscript, load, store, size}

-- The codes are those of ASCII, so that `char` is not negative; `res` is a size_t.
string_hash_loop : ℕ → List ℕ → ℕ
string_hash_loop res [] = res
string_hash_loop res (ch ∷ str) = string_hash_loop ((res + ch) % 2 ^ 64) str

string_hash : List ℕ → ℕ
string_hash str = string_hash_loop 0 str % 1024

String-discrete : Discrete (List ℕ)
String-discrete = hlevel ℕ_discrete

-- `map[key]`, read
at : HashTable (List ℕ) ℕ → List ℕ → Outcome (ℕ × HashTable (List ℕ) ℕ)
at h key = do (r, t) ← subscript String-discrete 0 string_hash 1024 h key; v ← load t r; ok (v, t)

-- `map[key] = v`
assign : HashTable (List ℕ) ℕ → List ℕ → ℕ → Outcome (HashTable (List ℕ) ℕ)
assign h key v = do (r, t) ← subscript String-discrete 0 string_hash 1024 h key; ok (store t r v)

hash_table_routine : Outcome (Unit {0})
hash_table_routine = do
  h1 ← assign new (97 ∷ 98 ∷ 99 ∷ []) 1
  (a, h2) ← at h1 (97 ∷ 98 ∷ 99 ∷ [])
  assert (a == 1)
  (b, h3) ← at h2 (97 ∷ 98 ∷ [])
  assert (b == 0)
  assert (size h3 == 2)
  ok tt

hash_table_routine_passes : hash_table_routine ≡ ok tt
unfolding hash_table_routine at assign subscript load store size new string_hash string_hash_loop
    String-discrete ℕ_discrete
hash_table_routine_passes = refl
