-- ===== src/StringClass/Substr.antt =====
-- `substr`. Its private constructor calls `strlen` on the tail of the array, which ends with no zero
-- unless the characters hold one.
use mod_cpp.Common.{
  ℕ, zero, suc, ◌+◌, ◌-◌, ◌≤◌, ◌<◌, ◌^◌, ◌≡◌, refl, true, false, ltb, leb, some, Option-cases, List,
  [], ◌∷◌, length, take, drop, length-drop, if◌then◌else◌, Bool-cases, inl, inr, length-take, arith,
}
use mod_cpp.Common.Outcome.{ok, thrown, undefined, assert_failed, Returns}
use mod_cpp.Common.Int.{ℤ, pos, negsuc}
use mod_cpp.StringClass.{
  Str, strlen, from_prefix, add_int, tail_from, substr_from, substr_len, substr,
}
use mod_cpp.StringClass.Laws.{IsValid, contents, AllNonzero, strlen-undefined, copy_loop-take}

AllNonzero-drop : (n : ℕ) (l : List ℕ) → AllNonzero l → AllNonzero (drop n l)
AllNonzero-drop zero l h = h
AllNonzero-drop (suc n) [] h = tt
AllNonzero-drop (suc n) (x ∷ l) h = AllNonzero-drop n l h.1

-- `substr` throws for an index out of range, before it looks at the length, and for a negative length.
pub substr-throws :
    (s : Str) (i k : ℕ) (len : ℤ)
    → (substr s (negsuc i) len ≡ thrown "substr outof bound")
      × (s.str_len ≤ i → substr s (pos i) len ≡ thrown "substr outof bound")
      × (i < s.str_len → substr s (pos i) (negsuc k) ≡ thrown "substr negative len")
unfolding substr substr_len
substr-throws s i k len = (refl, λ h. ground arith, λ h. ground arith)

from_prefix_short :
    (l : List ℕ) (n k : ℕ) → strlen l ≡ ok k → k < n → from_prefix l n ≡ assert_failed
unfolding from_prefix
from_prefix_short l n k e lt = let short : leb n k ≡ false = ground arith in rw (e, short)

-- The number of characters that `substr` means to return.
abbrev pub wanted : Str → ℕ → ℕ → ℕ
wanted s idx len = if ltb (s.str_len - idx) len then s.str_len - idx else len

from_prefix_lem :
    (l : List ℕ) (n k : ℕ)
    → strlen l ≡ ok k
    → n ≤ k
    → n ≤ length l
    → from_prefix l n ≡ ok (record { chars = some (take n l); str_len = n })
unfolding from_prefix
from_prefix_lem l n k e le fits =
    let long : leb n k ≡ true = ground arith in rw (e, long, copy_loop-take l n fits)

tail_lem :
    (s : Str) (idx : ℕ)
    → IsValid s
    → idx < s.str_len
    → (tail_from s.chars idx ≡ ok (drop idx (contents s))) × (length (contents s) ≡ s.str_len)
tail_lem s idx v h = elim (Option-cases s.chars) [
  | inl null ↦ let zero_len : s.str_len ≡ 0 = rw null at v in absurd (omega arith)
  | inr (l, e) ↦ rw e (refl, rw e at v)
]

-- `substr(idx, len + 1)` at an index in range of a valid string, with no overflow in `idx + len`: `k` is
-- the place of the first zero in the tail of the array. If the characters wanted stand before it, they
-- are the result; if not, the assertion of the private constructor fails.
pub substr_correct :
    (s : Str) (idx len k : ℕ)
    → IsValid s
    → idx < s.str_len
    → idx + suc len < 2 ^ 31
    → strlen (drop idx (contents s)) ≡ ok k
    → (wanted s idx (suc len) ≤ k
        → Returns
            (λ t. IsValid t × (contents t ≡ take (wanted s idx (suc len)) (drop idx (contents s))))
            (substr s (pos idx) (pos (suc len))))
      × (k < wanted s idx (suc len) → substr s (pos idx) (pos (suc len)) ≡ assert_failed)
unfolding substr substr_len substr_from add_int
substr_correct s idx len k v h small e =
    let (t, long) = tail_lem s idx v h in
    let inside : leb s.str_len idx ≡ false = ground arith in
    let no_overflow : ltb (idx + suc len) (2 ^ 31) ≡ true = ground arith in
    let count : (if ltb (s.str_len - 1) (idx + suc len - 1)
            then s.str_len - 1
            else idx + suc len - 1)
          - idx
          + 1
        ≡ wanted s idx (suc len) =
      ground arith in
    let fits : wanted s idx (suc len) ≤ length (drop idx (contents s)) =
      ground (arith, length-drop idx (contents s)) in
    rw (inside, no_overflow, t, count)
      (
        λ le.
            rw (from_prefix_lem (drop idx (contents s)) (wanted s idx (suc len)) k e le fits)
              (length-take _ _ fits, refl),
        λ lt. rw (from_prefix_short (drop idx (contents s)) (wanted s idx (suc len)) k e lt) refl,
      )

-- `substr` at an index in range with a positive length is undefined on every valid string with no zero
-- among its characters: the private constructor looks for the end of the array's text behind the array.
pub substr-undefined :
    (s : Str) (idx len : ℕ)
    → IsValid s
    → AllNonzero (contents s)
    → idx < s.str_len
    → substr s (pos idx) (pos (suc len)) ≡ undefined
unfolding substr substr_len substr_from add_int from_prefix
substr-undefined s idx len v nz h =
    let (t, long) = tail_lem s idx v h in
    let inside : leb s.str_len idx ≡ false = ground arith in
    rw (inside, t)
      (elim (Bool-cases (ltb (idx + suc len) (2 ^ 31))) [
        | inl small ↦
            rw (
              small,
              strlen-undefined (drop idx (contents s)) (AllNonzero-drop idx (contents s) nz),
            )
        | inr big ↦ rw big
      ])
