-- ===== src/ObjectOrientation/Laws.antt =====
-- What the assignment keeps, and the order in which the static member is printed.
use mathlib.Core.List.{reverse, reverse-cons, append-nil, append_assoc}
use mod_cpp.Common.{
  ℕ, zero, suc, ◌≤◌, ◌≡◌, ◌≢◌, refl, sym, ap, ◌∙◌, true, false, some, List, [], ◌∷◌, ◌++◌, length,
  ◌==◌, arith, ℕ_discrete,
}
use mod_cpp.Common.Outcome.{ok}
use mod_cpp.ObjectOrientation.{
  Store, assign, assign_b, back, pop_back, drain_loop, init_static_member,
}

-- After `B::operator=` the object has the array and the numbers of the other one, and the other objects
-- are as they were; an object that is assigned to itself stays as it is and nothing is printed.
pub record Assigned (s t : Store) (i rhs : ℕ) : Type 0 where
  pub array : t.arr i ≡ s.arr rhs
  pub numbers : t.fields i ≡ s.fields rhs
  pub others : (j : ℕ) → j ≢ i → (t.arr j ≡ s.arr j) × (t.fields j ≡ s.fields j)
  pub itself : i ≡ rhs → t ≡ s

pub assign_b_correct : (s : Store) (i rhs : ℕ) → Assigned s (assign_b s i rhs) i rhs
unfolding assign_b assign
assign_b_correct s i rhs = elim (ℕ_discrete i rhs) [
  | yes e ↦ rw (self e) (record {
    array = ap s.arr e;
    numbers = ap s.fields e;
    others = λ j other. (refl, refl);
    itself = λ e'. refl;
  })
  | no other ↦ rw (apart other) (record {
    array = ground arith;
    numbers = ground arith;
    others = λ j away. (ground arith, ground arith);
    itself = λ e. absurd (other e);
  })
]
  where
    self : i ≡ rhs → (i == rhs) ≡ true
    self e = ground arith

    apart : i ≢ rhs → (i == rhs) ≡ false
    apart other = ground arith

back-append : (xs : List ℕ) (x : ℕ) → back (xs ++ x ∷ []) ≡ some x
back-append [] x = refl
back-append (y ∷ []) x = refl
back-append (y ∷ z ∷ xs) x = back-append (z ∷ xs) x

pop_back-append : (xs : List ℕ) (x : ℕ) → pop_back (xs ++ x ∷ []) ≡ xs
pop_back-append [] x = refl
pop_back-append (y ∷ []) x = refl
pop_back-append (y ∷ z ∷ xs) x = ap (λ l. y ∷ l) (pop_back-append (z ∷ xs) x)

drain_loop-reverse :
    (w : List ℕ) (fuel : ℕ) (out : List ℕ)
    → length w ≤ fuel
    → drain_loop fuel (reverse w) (back (reverse w)) out ≡ ok (out ++ w)
unfolding drain_loop
drain_loop-reverse [] zero out h = ap ok (sym (append-nil out))
drain_loop-reverse [] (suc fuel) out h = ap ok (sym (append-nil out))
drain_loop-reverse (x ∷ w) zero out h = absurd (omega arith)
drain_loop-reverse (x ∷ w) (suc fuel) out h = rw (reverse-cons x w) (
    rw (back-append (reverse w) x) (
      ap (λ l. drain_loop fuel l (back l) (out ++ x ∷ [])) (pop_back-append (reverse w) x)
      ∙ drain_loop-reverse w fuel (out ++ x ∷ []) (omega arith)
      ∙ ap ok (append_assoc out (x ∷ []) w)))

-- The static member is printed from its end: where it holds the reverse of `w`, and with as much fuel as
-- `w` has elements, the loop ends and prints `w`.
pub init_static_member_reverses :
    (w : List ℕ) (fuel : ℕ) → length w ≤ fuel → init_static_member fuel (reverse w) ≡ ok w
unfolding init_static_member
init_static_member_reverses w fuel h = drain_loop-reverse w fuel [] h
