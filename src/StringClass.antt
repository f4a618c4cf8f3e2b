-- ===== src/StringClass.antt =====
-- string.cc: the class `string`. A `char` is its code; an array of characters is the list of its
-- elements, and reading behind its end is undefined. Lengths stay below 2 ^ 31, so that the
-- conversions of `size()` to int keep the value.
pub mod Laws
pub mod Substr
mod Tests
use mod_cpp.Common.{
  ℕ, zero, suc, ◌+◌, ◌-◌, ◌<◌, ◌^◌, Bool, true, false, not, ltb, leb, ◌==◌, if◌then◌else◌, Option,
  none, some, is_some, List, [], ◌∷◌, ◌++◌, length, get_elem?, set, take, drop,
}
use mod_cpp.Common.Outcome.{
  Outcome, ok, thrown, undefined, ◌>>=◌, ◌>>◌, assert, throw_if, or_undefined,
}
use mod_cpp.Common.Int.{ℤ, pos, negsuc}

-- `data` is `none` for a null pointer.
pub record Str : Type 0 where
  pub chars : Option (List ℕ)
  pub str_len : ℕ

pub size : Str → ℕ
size s = s.str_len

-- `strlen` counts the characters before the first zero; past the end of the array it is undefined.
unfoldable pub strlen : List ℕ → Outcome ℕ
strlen [] = undefined
strlen (c ∷ cs) = let rest = strlen cs >>= λ n. ok (suc n) in if c == 0 then ok 0 else rest

-- `data[i]`
unfoldable pub read : Option (List ℕ) → ℕ → Outcome ℕ
read none i = undefined
read (some l) i = or_undefined (get_elem? l i)

-- `operator[]`, read
unfoldable pub at : Str → ℤ → Outcome ℕ
unfolding read
at s (negsuc n) = thrown "index outof bound"
at s (pos i) = do throw_if (leb s.str_len i) "index outof bound"; read s.chars i

-- `data[i] = c`
unfoldable pub write : Option (List ℕ) → ℕ → ℕ → Outcome (Option (List ℕ))
write none i c = undefined
write (some l) i c = if ltb i (length l) then ok (some (set l i c)) else undefined

-- `operator[]`, written
unfoldable pub assign_at : Str → ℤ → ℕ → Outcome Str
unfolding write
assign_at s (negsuc n) c = thrown "index outof bound"
assign_at s (pos i) c = do
  throw_if (leb s.str_len i) "index outof bound"
  d ← write s.chars i c
  ok (record s { chars = d })

-- `for (int i = 0; i < n; i ++ ) data[i] = get(i);`, with the rounds that are left: the characters.
unfoldable pub copy_loop : (ℕ → Outcome ℕ) → ℕ → ℕ → Outcome (List ℕ)
copy_loop get zero i = ok []
copy_loop get (suc n) i = do c ← get i; cs ← copy_loop get n (suc i); ok (c ∷ cs)

unfoldable pub create_and_copy : Str → Outcome Str
unfolding copy_loop at
create_and_copy rhs = do
  cs ← copy_loop (λ i. at rhs (pos i)) rhs.str_len 0
  ok (record { chars = some cs; str_len = rhs.str_len })

-- `string(const char *str, int n)`, private
unfoldable pub from_prefix : List ℕ → ℕ → Outcome Str
unfolding strlen copy_loop
from_prefix str n = do
  len ← strlen str
  assert (leb n len)
  cs ← copy_loop (λ i. or_undefined (get_elem? str i)) n 0
  ok (record { chars = some cs; str_len = n })

-- `string(const char *str)`
unfoldable pub from_chars : List ℕ → Outcome Str
unfolding strlen copy_loop
from_chars str = do
  n ← strlen str
  cs ← copy_loop (λ i. or_undefined (get_elem? str i)) n 0
  ok (record { chars = some cs; str_len = n })

-- `string(const string&)`
unfoldable pub copy : Str → Outcome Str
unfolding create_and_copy
copy rhs = create_and_copy rhs

-- `operator=(const string&)`; `same_object` says that `this == &rhs`.
unfoldable pub assign : Bool → Str → Str → Outcome Str
unfolding create_and_copy
assign same_object s rhs = if same_object then ok s else create_and_copy rhs

-- `string(string&&)`: the new object, and what is left of `rhs`
unfoldable pub move : Str → Str × Str
move rhs = (record { chars = rhs.chars; str_len = size rhs }, record { chars = none; str_len = 0 })

-- `if (data) { delete[] data; data = nullptr; str_len = 0; }`
unfoldable pub clear : Str → Str
clear s = if is_some s.chars then record { chars = none; str_len = 0 } else s

-- `operator=(string&&)`: `str_len` of `rhs` is not copied.
unfoldable pub move_assign : Bool → Str → Str → Outcome (Str × Str)
unfolding clear
move_assign same_object s rhs = do
  assert (not same_object)
  ok (record (clear s) { chars = rhs.chars }, record { chars = none; str_len = 0 })

-- the loop of `operator==`
unfoldable pub equal_loop : Str → Str → ℕ → ℕ → Outcome Bool
unfolding read at
equal_loop s rhs zero i = ok true
equal_loop s rhs (suc n) i = do
  c ← read s.chars i
  d ← at rhs (pos i)
  let rest = equal_loop s rhs n (suc i)
  if c == d then rest else ok false

unfoldable pub equal : Str → Str → Outcome Bool
unfolding equal_loop
equal s rhs = if s.str_len == rhs.str_len then equal_loop s rhs s.str_len 0 else ok false

-- `idx + len` in type int
unfoldable pub add_int : ℕ → ℕ → Outcome ℕ
add_int a b = if ltb (a + b) (2 ^ 31) then ok (a + b) else undefined

-- `data + idx`: the array from there on
abbrev pub tail_from : Option (List ℕ) → ℕ → Outcome (List ℕ)
tail_from none idx = undefined
tail_from (some l) idx = ok (drop idx l)

-- `substr` with arguments that passed its checks, `0 <= idx < n` and `0 < len`
unfoldable pub substr_from : Str → ℕ → ℕ → Outcome Str
unfolding add_int from_prefix
substr_from s idx len = do
  end ← add_int idx len
  let right = if ltb (s.str_len - 1) (end - 1) then s.str_len - 1 else end - 1
  l ← tail_from s.chars idx
  from_prefix l (right - idx + 1)

-- `if (!len) return string("");`
unfoldable pub substr_len : Str → ℕ → ℤ → Outcome Str
unfolding substr_from from_chars
substr_len s idx (negsuc n) = thrown "substr negative len"
substr_len s idx (pos zero) = from_chars (0 ∷ [])
substr_len s idx (pos (suc len)) = substr_from s idx (suc len)

unfoldable pub substr : Str → ℤ → ℤ → Outcome Str
unfolding substr_len
substr s (negsuc n) len = thrown "substr outof bound"
substr s (pos idx) len = do throw_if (leb s.str_len idx) "substr outof bound"; substr_len s idx len

-- `operator<<`: the characters that it prints
unfoldable pub print : Str → Outcome (List ℕ)
unfolding copy_loop read
print rhs = copy_loop (λ i. read rhs.chars i) rhs.str_len 0
