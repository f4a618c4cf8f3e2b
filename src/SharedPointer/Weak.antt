-- ===== src/SharedPointer/Weak.antt =====
-- `weak_pointer`, and what becomes of it when its shared pointer is destroyed or moved from.
use mod_cpp.Common.{
  ℕ, ◌-◌, ◌≡◌, ◌≢◌, refl, sym, Bool, Bool-cases, Option-cases, inl, inr, true, false, ◌==◌,
  if◌then◌else◌, update, Option, none, some, List, [], ◌∷◌, arith,
}
use mod_cpp.Common.Outcome.{ok, undefined, Returns, Returns-bind}
use mod_cpp.SharedPointer.{
  Store, set_fields, decrease_count, decrease_with, decrease_current_refcnt, attach, copy_construct,
  take_over, move_construct, destroy, lock, construct_null, reset_all, erase, cancel_if,
  weak_assign, weak_construct,
}
use mod_cpp.SharedPointer.Counted.{IsCounted, dropped-IsCounted, unset-IsCounted, weak-IsCounted}

unfoldable pub contains : ℕ → List ℕ → Bool
contains k [] = false
contains k (a ∷ l) = if k == a then true else contains k l

-- A shared pointer knows the weak pointers that refer to it.
unfoldable pub IsSubscribed : Store → Type 0
IsSubscribed s = (k i : ℕ) → s.wp_shared k ≡ some i → contains k (s.weak_ptr_set i) ≡ true

contains-erase :
    (l : List ℕ) (k a : ℕ) → contains k (erase a l) ≡ (if a == k then false else contains k l)
unfolding contains erase
contains-erase [] k a = ground arith
contains-erase (b ∷ l) k a = ground (arith, contains-erase l k a)

reset_all-at :
    (l : List ℕ) (wp : ℕ → Option ℕ) (k : ℕ)
    → reset_all l wp k ≡ (if contains k l then none else wp k)
unfolding contains reset_all
reset_all-at [] wp k = refl
reset_all-at (a ∷ l) wp k = ground (arith, reset_all-at l (update wp a none) k)

ends-IsSubscribed :
    (s : Store) (i : ℕ) (d m : ℕ → Option ℕ)
    → IsSubscribed s
    → IsSubscribed (record s {
      sp_data = d;
      sp_metadata = m;
      wp_shared = reset_all (s.weak_ptr_set i) s.wp_shared;
      weak_ptr_set = update s.weak_ptr_set i [];
    })
unfolding IsSubscribed contains
ends-IsSubscribed s i d m u k j h =
    ground (arith, reset_all-at (s.weak_ptr_set i) s.wp_shared k, u k j)

ends-reset :
    (s : Store) (i k : ℕ)
    → IsSubscribed s
    → s.wp_shared k ≡ some i
    → reset_all (s.weak_ptr_set i) s.wp_shared k ≡ none
unfolding IsSubscribed
ends-reset s i k u h = ground (arith, reset_all-at (s.weak_ptr_set i) s.wp_shared k, u k i)

lock_null : (s : Store) (k j : ℕ) → s.wp_shared k ≡ none → lock s k j ≡ ok (construct_null s j)
unfolding lock
lock_null s k j h = rw h refl

counting-fields :
    (s : Store) (i p m n : ℕ)
    → ((decrease_count s i p m n).wp_shared ≡ s.wp_shared)
      × ((decrease_count s i p m n).weak_ptr_set ≡ s.weak_ptr_set)
unfolding decrease_count
counting-fields s i p m n = elim (Bool-cases (n - 1 == 0)) [
  | inl e ↦ rw e (refl, refl)
  | inr e ↦ rw e (refl, refl)
]

same-IsSubscribed :
    (s t : Store)
    → t.wp_shared ≡ s.wp_shared
    → t.weak_ptr_set ≡ s.weak_ptr_set
    → IsSubscribed s
    → IsSubscribed t
unfolding IsSubscribed
same-IsSubscribed s t e f u k i h = rw f (u k i (rw (sym e) h))

decreased :
    {size : ℕ} (s : Store) (v : IsCounted size s) (i : ℕ)
    → Returns
        (λ t.
          IsCounted size (set_fields t i none none)
          × (t.wp_shared ≡ s.wp_shared)
          × (t.weak_ptr_set ≡ s.weak_ptr_set))
        (decrease_current_refcnt s i)
unfolding decrease_current_refcnt decrease_with
decreased s v i = elim (Option-cases (s.sp_data i)) [
  | inl d ↦ rw d (unset-IsCounted s v i d, refl, refl)
  | inr (p, d) ↦ elim (Option-cases (s.sp_metadata i)) [
    | inl e ↦ absurd (ground (arith, v.paired i))
    | inr (m, e) ↦ elim (Option-cases (s.refcnt m)) [
      | inl c ↦ absurd (ground (arith, v.backed i m))
      | inr (n, c) ↦ rw d (
          rw e (
            rw c (
              dropped-IsCounted s v i p m n d e c,
              (counting-fields s i p m n).0,
              (counting-fields s i p m n).1,
            )))
    ]
  ]
]

-- When a shared pointer is destroyed, the counts stay right, every weak pointer still is one that its
-- shared pointer knows, and locking a weak pointer that referred to it gives a null pointer.
pub destroy-reset :
    {size : ℕ} (s : Store) (v : IsCounted size s) (u : IsSubscribed s) (i : ℕ)
    → Returns
        (λ t.
          IsCounted size t
          × IsSubscribed t
          × ((k j : ℕ) → s.wp_shared k ≡ some i → lock t k j ≡ ok (construct_null t j)))
        (destroy s i)
unfolding destroy
destroy-reset {size} s v u i =
    Returns-bind _ _ (decrease_current_refcnt s i) _ (decreased s v i) (λ t (c, e, f).
      let g = same-IsSubscribed s t e f u in
      (
        weak-IsCounted size (set_fields t i none none) _ _ c,
        ends-IsSubscribed t i _ _ g,
        λ k j h. lock_null _ k j (ends-reset t i k g (rw e h)),
      ))

-- A weak pointer that is assigned refers to the shared pointer; every weak pointer still is one that its
-- shared pointer knows.
pub weak_assign-IsSubscribed :
    (s : Store) (k i : ℕ)
    → IsSubscribed s
    → IsSubscribed (weak_assign s k i) × ((weak_assign s k i).wp_shared k ≡ some i)
unfolding IsSubscribed weak_assign cancel_if weak_construct contains
weak_assign-IsSubscribed s k i u = elim (Option-cases (s.wp_shared k)) [
  | inl e ↦
      rw e (λ a b h. ground (arith, u a b, contains-erase (s.weak_ptr_set i) a k), ground arith)
  | inr (o, e) ↦ rw e (
    λ a b h. ground (
      arith,
      u a b,
      contains-erase (s.weak_ptr_set i) a k,
      contains-erase (s.weak_ptr_set o) a k,
      contains-erase (erase k (s.weak_ptr_set o)) a k,
    ),
    ground arith,
  )
]

taken : (s : Store) (i j : ℕ) → update (update s.sp_metadata i (s.sp_metadata j)) j none j ≡ none
taken s i j = ground arith

-- After a move construction, locking a weak pointer that referred to the moved shared pointer is
-- undefined: it copies a null pointer.
pub lock-move_construct :
    (s : Store) (i j k l : ℕ)
    → i ≢ j
    → s.wp_shared k ≡ some j
    → lock (move_construct s i j) k l ≡ undefined
unfolding lock move_construct take_over copy_construct attach
lock-move_construct s i j k l d h = rw h (rw (taken s i j) refl)
