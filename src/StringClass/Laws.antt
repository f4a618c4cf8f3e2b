-- ===== src/StringClass/Laws.antt =====
-- A string as the list of its characters.
use mod_cpp.Common.{
  ℕ, zero, suc, ◌+◌, ◌≤◌, ◌<◌, ◌≡◌, ◌≢◌, ◌↔◌, refl, sym, ap, ◌∙◌, Bool, true, false, ltb, leb, ◌==◌,
  Bool-cases, Option-cases, if◌then◌else◌, inl, inr, Option, none, some, List, [], ◌∷◌, ◌++◌,
  length, get_elem?, set, take, drop, drop-cons, take-length, take-append, drop_all, length-append,
  is_some, length-set, get_elem?-set, arith,
}
use mod_cpp.Common.Outcome.{Outcome, ok, thrown, undefined, or_undefined, Returns, Returns-bind}
use mod_cpp.Common.Int.{pos, negsuc}
use mod_cpp.StringClass.{
  Str, size, write, strlen, read, at, assign_at, copy_loop, create_and_copy, from_chars, copy,
  assign, move, clear, move_assign, equal_loop, equal, print,
}

-- The array has `str_len` characters; a null pointer goes with length 0.
abbrev pub HasLength : Option (List ℕ) → ℕ → Type 0
HasLength none n = n ≡ 0
HasLength (some l) n = length l ≡ n

abbrev pub IsValid : Str → Type 0
IsValid s = HasLength s.chars s.str_len

abbrev characters : Option (List ℕ) → List ℕ
characters none = []
characters (some l) = l

abbrev pub contents : Str → List ℕ
contents s = characters s.chars

-- A loop that reads `l` from place `i` on copies the rest of it.
copy_loop-drop :
    (get : ℕ → Outcome ℕ) (l : List ℕ)
    → ((i : ℕ) → i < length l → get i ≡ or_undefined (get_elem? l i))
    → (n i : ℕ) → i + n ≤ length l
    → copy_loop get n i ≡ ok (take n (drop i l))
unfolding copy_loop
copy_loop-drop get l reads zero i h = refl
copy_loop-drop get l reads (suc n) i h =
    let (x, e, d) = drop-cons l i (omega arith) in
    rw (reads i (omega arith), e, copy_loop-drop get l reads n (suc i) (omega arith), d)

copy_loop-all :
    (get : ℕ → Outcome ℕ) (l : List ℕ)
    → ((i : ℕ) → i < length l → get i ≡ or_undefined (get_elem? l i))
    → copy_loop get (length l) 0 ≡ ok l
copy_loop-all get l reads =
    copy_loop-drop get l reads (length l) 0 (omega arith) ∙ ap ok (take-length l)

at-read :
    (l : List ℕ) (i : ℕ)
    → i < length l
    → at (record { chars = some l; str_len = length l }) (pos i) ≡ or_undefined (get_elem? l i)
unfolding at
at-read l i h = ground arith

read-ok :
    (s : Str) (k : ℕ)
    → IsValid s
    → k < s.str_len
    → (c : ℕ) × (read s.chars k ≡ ok c) × (get_elem? (contents s) k ≡ some c)
unfolding read
read-ok s k v h = go s.chars v
  where
    go :
        (d : Option (List ℕ))
        → HasLength d s.str_len
        → (c : ℕ) × (read d k ≡ ok c) × (get_elem? (characters d) k ≡ some c)
    go none e = absurd (omega arith)
    go (some l) e = let (c, there, rest) = drop-cons l k (omega arith) in (c, rw there, there)

at-eq-read : (s : Str) (k : ℕ) → k < s.str_len → at s (pos k) ≡ read s.chars k
unfolding at
at-eq-read s k h = ground arith

-- `operator[]` of a valid string reads the character at an index from 0 to `size() - 1`, and throws
-- at any other index, also a negative one.
pub at_correct :
    (s : Str) (k : ℕ)
    → IsValid s
    → (k < s.str_len → Returns (λ c. get_elem? (contents s) k ≡ some c) (at s (pos k)))
      × (s.str_len ≤ k → at s (pos k) ≡ thrown "index outof bound")
      × (at s (negsuc k) ≡ thrown "index outof bound")
unfolding at
at_correct s k v = (
  λ h. let (c, e, there) = read-ok s k v h in rw (at-eq-read s k h, e) there,
  λ h. ground arith,
  refl,
)

write_lem :
    (d : Option (List ℕ)) (n k c : ℕ)
    → HasLength d n
    → k < n
    → Returns (λ e. HasLength e n × (characters e ≡ set (characters d) k c)) (write d k c)
unfolding write
write_lem none n k c v h = absurd (omega arith)
write_lem (some l) n k c v h =
    let inside : ltb k (length l) ≡ true = ground arith in rw inside (length-set l k c ∙ v, refl)

-- Writing through `operator[]` of a valid string at an index in range replaces that character, and the
-- string stays valid; the new character is what `operator[]` then reads there, and the others are kept.
pub assign_at_correct :
    (s : Str) (k c : ℕ)
    → IsValid s
    → k < s.str_len
    → Returns
        (λ t.
          IsValid t
          × (t.str_len ≡ s.str_len)
          × ((j : ℕ)
              → get_elem? (contents t) j ≡ (if k == j then some c else get_elem? (contents s) j)))
        (assign_at s (pos k) c)
unfolding assign_at
assign_at_correct s k c v h = rw below (
    Returns-bind _ _ (write s.chars k c) _ (write_lem s.chars s.str_len k c v h)
      λ d w. (w.0, refl, λ j. rw w.1 (get_elem?-set (contents s) k j c (long s.chars v))))
  where
    below : leb s.str_len k ≡ false
    below = ground arith

    long : (d : Option (List ℕ)) → HasLength d s.str_len → k < length (characters d)
    long none e = omega arith
    long (some l) e = omega arith

copy_loop-valid :
    (get : ℕ → Outcome ℕ) (d : Option (List ℕ)) (n : ℕ)
    → HasLength d n
    → ((i : ℕ) → i < n → get i ≡ read d i)
    → copy_loop get n 0 ≡ ok (characters d)
unfolding copy_loop read
copy_loop-valid get none n v reads = rw v
copy_loop-valid get (some l) n v reads =
    rw (← v) (copy_loop-all get l (λ i h. reads i (omega arith)))

create_and_copy_lem :
    (s : Str)
    → IsValid s
    → create_and_copy s ≡ ok (record { chars = some (contents s); str_len = s.str_len })
unfolding create_and_copy
create_and_copy_lem s v =
    rw (copy_loop-valid (λ i. at s (pos i)) s.chars s.str_len v (at-eq-read s))

some-contents-IsValid : (s : Str) → IsValid s → length (contents s) ≡ s.str_len
some-contents-IsValid s v = go s.chars v
  where
    go : (d : Option (List ℕ)) → HasLength d s.str_len → length (characters d) ≡ s.str_len
    go none e = sym e
    go (some l) e = e

-- The copy constructor, and the copy assignment from another object, give a valid string of the same
-- characters; assigning a string to itself changes nothing.
pub copy_correct :
    (s old : Str)
    → IsValid s
    → Returns (λ t. IsValid t × (contents t ≡ contents s)) (copy s)
      × Returns (λ t. IsValid t × (contents t ≡ contents s)) (assign false old s)
      × (assign true s s ≡ ok s)
unfolding copy assign
copy_correct s old v =
    let e = create_and_copy_lem s v in
    (rw e (some-contents-IsValid s v, refl), rw e (some-contents-IsValid s v, refl), refl)

-- The move constructor takes the characters over and leaves an empty string.
pub move_correct :
    (s : Str)
    → IsValid s
    → IsValid (move s).0
      × (contents (move s).0 ≡ contents s)
      × IsValid (move s).1
      × (contents (move s).1 ≡ [])
unfolding move size
move_correct s v = (v, refl, refl, refl)

clear-len : (s : Str) → IsValid s → (clear s).str_len ≡ 0
unfolding clear
clear-len s v = elim (Option-cases s.chars) [
  | inl null ↦ rw (null, is_some) (rw null at v)
  | inr (l, there) ↦ rw (there, is_some)
]

HasLength-zero : (d : Option (List ℕ)) (n : ℕ) → HasLength d n → HasLength d 0 ↔ (n ≡ 0)
HasLength-zero none n e = (λ h. e, λ h. refl)
HasLength-zero (some l) n e = (λ h. omega arith, λ h. omega arith)

-- The move assignment from another object into a valid string takes its array over, but the length of
-- the result is 0, whatever the length of the source was: the result is a valid string only if the
-- source was empty.
pub move_assign_loses :
    (old s : Str)
    → IsValid old
    → IsValid s
    → Returns
        (λ p. (p.0.str_len ≡ 0) × (p.0.chars ≡ s.chars) × (IsValid p.0 ↔ (s.str_len ≡ 0)))
        (move_assign false old s)
unfolding move_assign
move_assign_loses old s v w =
    let none_left = clear-len old v in
    (none_left, refl, rw none_left (HasLength-zero s.chars s.str_len w))

abbrev pub AllNonzero : List ℕ → Type 0
AllNonzero [] = Unit
AllNonzero (c ∷ cs) = (c ≢ 0) × AllNonzero cs

pub strlen-append : (cs rest : List ℕ) → AllNonzero cs → strlen (cs ++ 0 ∷ rest) ≡ ok (length cs)
unfolding strlen
strlen-append [] rest h = refl
strlen-append (c ∷ cs) rest h = ground (arith, strlen-append cs rest h.1)

pub strlen-undefined : (cs : List ℕ) → AllNonzero cs → strlen cs ≡ undefined
unfolding strlen
strlen-undefined [] h = refl
strlen-undefined (c ∷ cs) h = ground (arith, strlen-undefined cs h.1)

pub copy_loop-take :
    (l : List ℕ) (n : ℕ)
    → n ≤ length l
    → copy_loop (λ i. or_undefined (get_elem? l i)) n 0 ≡ ok (take n l)
copy_loop-take l n h = copy_loop-drop _ l (λ i _. refl) n 0 (omega arith)

print_lem : (s : Str) → IsValid s → print s ≡ ok (contents s)
unfolding print
print_lem s v = copy_loop-valid (λ i. read s.chars i) s.chars s.str_len v (λ i h. refl)

-- A string made from an array of characters is valid and prints the characters before the first zero.
pub print-from_chars :
    (cs rest : List ℕ)
    → AllNonzero cs
    → Returns
        (λ s. IsValid s × (s.str_len ≡ length cs) × (print s ≡ ok cs))
        (from_chars (cs ++ 0 ∷ rest))
unfolding from_chars
print-from_chars cs rest h =
    let long : length cs ≤ length (cs ++ 0 ∷ rest) = omega (arith, length-append cs (0 ∷ rest)) in
    rw
      (
        strlen-append cs rest h,
        copy_loop-take (cs ++ 0 ∷ rest) (length cs) long,
        take-append cs (0 ∷ rest),
      )
      (refl, refl, print_lem _ refl)

equal_loop_lem :
    (s t : Str) (n i : ℕ)
    → IsValid s
    → IsValid t
    → i + n ≡ s.str_len
    → s.str_len ≡ t.str_len
    → (c : Bool) × (equal_loop s t n i ≡ ok c)
      × ((c ≡ true) ↔ (drop i (contents s) ≡ drop i (contents t)))
unfolding equal_loop
equal_loop_lem s t zero i v w e f =
    let ends = drop_all i (contents s) (omega (arith, some-contents-IsValid s v)) in
    let ends' = drop_all i (contents t) (omega (arith, some-contents-IsValid t w)) in
    (true, refl, (λ _. ends ∙ sym ends', λ _. refl))
equal_loop_lem s t (suc n) i v w e f =
    let (c, rc, gc) = read-ok s i v (omega arith) in
    let (d, rd, gd) = read-ok t i w (omega arith) in
    let (x, gx, dx) = drop-cons (contents s) i (omega (arith, some-contents-IsValid s v)) in
    let (y, gy, dy) = drop-cons (contents t) i (omega (arith, some-contents-IsValid t w)) in
    let (b, rb, iff) = equal_loop_lem s t n (suc i) v w (omega arith) f in
    rw (rc, at-eq-read t i (omega arith), rd, dx, dy)
      (elim (Bool-cases (c == d)) [
        | inl same ↦ rw same (b, rb, (λ h. ground (arith, iff.0 h), λ h. iff.1 (ground arith)))
        | inr other ↦ rw other (false, refl, (λ h. cc, λ h. ground arith))
      ])

-- `operator==` of two valid strings returns, and says whether their characters agree.
pub equal_correct :
    (s t : Str)
    → IsValid s
    → IsValid t
    → (c : Bool) × (equal s t ≡ ok c) × ((c ≡ true) ↔ (contents s ≡ contents t))
unfolding equal
equal_correct s t v w = elim (Bool-cases (s.str_len == t.str_len)) [
  | inl same ↦ rw same (equal_loop_lem s t s.str_len 0 v w (omega arith) (ground arith))
  | inr other ↦ rw other (
    false,
    refl,
    (
      λ h. cc,
      λ h. ground (arith, ap length h, some-contents-IsValid s v, some-contents-IsValid t w),
    ),
  )
]
