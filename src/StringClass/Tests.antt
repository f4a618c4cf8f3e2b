-- ===== src/StringClass/Tests.antt =====
-- `string_routine`, and the theorems at "abc".
use mod_cpp.Common.{
  ℕ, ◌<◌, ◌≤◌, ◌≡◌, ◌↔◌, refl, Bool, true, ◌==◌, some, List, [], ◌∷◌, take, drop, arith,
}
use mod_cpp.Common.Outcome.{
  Outcome, ok, thrown, undefined, assert_failed, ◌>>=◌, ◌>>◌, assert, Returns,
}
use mod_cpp.Common.Int.{pos, negsuc}
use mod_cpp.StringClass.{Str, size, assign_at, from_chars, move, equal, substr, print, strlen}
use mod_cpp.StringClass.Laws.{IsValid, contents, move_correct, equal_correct}
use mod_cpp.StringClass.Substr.{wanted, substr-throws, substr_correct, substr-undefined}

string_routine : Outcome (List ℕ)
string_routine = do
  s1 ← from_chars (97 ∷ 98 ∷ 99 ∷ 0 ∷ [])
  s2 ← from_chars (98 ∷ 99 ∷ 0 ∷ [])
  s3 ← substr s1 (pos 1) (pos 1000)
  same ← equal s2 s3
  assert same
  s4 ← assign_at s1 (pos 1) 0
  assert (size s4 == 3)
  print s4

-- The routine reads behind the array of `s1`.
string_routine_undefined : string_routine ≡ undefined
unfolding string_routine from_chars substr
string_routine_undefined = refl

abbrev abc : Str
abc = record { chars = some (97 ∷ 98 ∷ 99 ∷ []); str_len = 3 }

-- with a zero inside
abbrev ab_c : Str
ab_c = record { chars = some (97 ∷ 98 ∷ 0 ∷ 99 ∷ []); str_len = 4 }

from_chars-abc : from_chars (97 ∷ 98 ∷ 99 ∷ 0 ∷ []) ≡ ok abc
unfolding from_chars
from_chars-abc = refl

move_correct_example :
    IsValid (move abc).0
    × (contents (move abc).0 ≡ contents abc)
    × IsValid (move abc).1
    × (contents (move abc).1 ≡ [])
move_correct_example = move_correct abc refl

equal_correct_example :
    (c : Bool) × (equal abc ab_c ≡ ok c) × ((c ≡ true) ↔ (contents abc ≡ contents ab_c))
equal_correct_example = equal_correct abc ab_c refl refl

substr-throws_example :
    (substr abc (negsuc 5) (pos 1) ≡ thrown "substr outof bound")
    × (3 ≤ 5 → substr abc (pos 5) (pos 1) ≡ thrown "substr outof bound")
    × (5 < 3 → substr abc (pos 5) (negsuc 2) ≡ thrown "substr negative len")
substr-throws_example = substr-throws abc 5 2 (pos 1)

substr_correct_example :
    (wanted ab_c 0 2 ≤ 2
      → Returns
          (λ t. IsValid t × (contents t ≡ take (wanted ab_c 0 2) (drop 0 (contents ab_c))))
          (substr ab_c (pos 0) (pos 2)))
    × (2 < wanted ab_c 0 2 → substr ab_c (pos 0) (pos 2) ≡ assert_failed)
unfolding strlen
substr_correct_example = substr_correct ab_c 0 1 2 refl (omega arith) (omega arith) refl

substr-undefined_example : substr abc (pos 1) (pos 1000) ≡ undefined
substr-undefined_example = substr-undefined abc 1 999 refl (omega arith) (omega arith)
