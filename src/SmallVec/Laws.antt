-- ===== src/SmallVec/Laws.antt =====
-- The vector against the sequence of its elements.
use mod_cpp.Common.{
  ℕ, zero, suc, ◌+◌, ◌*◌, ◌≤◌, ◌<◌, ◌≡◌, refl, subst, ◌∙◌, ◌≢◌, ap, ◌⊎◌, Bool, Bool-cases, inl, inr,
  true, false, ltb, leb, ◌==◌, if◌then◌else◌, update, some, arith,
}
use mod_cpp.Common.Outcome.{ok, undefined, ◌>>=◌, or_undefined, Returns, Returns-bind, Returns-map}
use mod_cpp.SmallVec.{
  Vec, Ref, outside, in_stack, in_heap, dangling, new, copy_loop, grow, load, at, after_grow,
  construct_on_heap, emplace_back,
}

-- The heap array of a vector that is over `N`
pub record OnHeap {A : Type 0} (v : Vec A) (item : ℕ → A) : Type 0 where
  pub array : ℕ → A
  pub there : v.heap_vec ≡ some array
  pub room : v.vec_size ≤ v.vec_capacity
  pub elements : (i : ℕ) → i < v.vec_size → array i ≡ item i

-- The vector holds `item 0`, `item 1` and so on, up to its size.
pub record Holds {A : Type 0} (N : ℕ) (v : Vec A) (item : ℕ → A) : Type 0 where
  pub on_stack : v.vec_size ≤ N → v.vec_capacity ≡ N
  pub elements : v.vec_size ≤ N → (i : ℕ) → i < v.vec_size → v.stack_vec i ≡ item i
  pub on_heap : N < v.vec_size → OnHeap v item

module _ {A : Type 0} (N : ℕ) (new_array : ℕ → ℕ → A) where
  copy_loop-at :
      (n : ℕ) (src dst : ℕ → A) (i : ℕ) → i < n → copy_loop N new_array n src dst i ≡ src i
  unfolding copy_loop
  copy_loop-at zero src dst i h = absurd (omega arith)
  copy_loop-at (suc n) src dst i h = ground (arith, copy_loop-at n src dst i)

  pub new_correct : (d item : ℕ → A) → Holds N (new N new_array d) item
  new_correct d item = record {
    on_stack = λ h. refl;
    elements = λ h i b. absurd (omega arith);
    on_heap = λ h. absurd (omega arith);
  }

  -- Reading an element of a vector is defined and gives the element.
  pub at-Holds :
      (v : Vec A) (item : ℕ → A) (i : ℕ)
      → Holds N v item
      → i < v.vec_size
      → at N new_array v i ≡ ok (item i)
  unfolding at load
  at-Holds v item i w b = elim (Bool-cases (leb v.vec_size N)) [
    | inl h ↦ rw h (ground (arith, w.elements (ground arith) i))
    | inr h ↦ rw h (read (w.on_heap (ground arith)))
  ]
    where
      read :
          OnHeap v item
          → (do h ← or_undefined v.heap_vec; if ltb i v.vec_capacity then ok (h i) else undefined)
            ≡ ok (item i)
      read o = rw o.there (ground (arith, o.elements i, o.room))

  grow-OnHeap :
      (v : Vec A) (item : ℕ → A)
      → 0 < N
      → N ≤ v.vec_size
      → v.vec_size ≡ v.vec_capacity
      → Holds N v item
      → Returns
          (λ t.
            OnHeap t item
            × (t.vec_size ≡ v.vec_size)
            × (v.vec_size < t.vec_capacity)
            × (t.stack_vec ≡ v.stack_vec))
          (grow N new_array v)
  unfolding grow
  grow-OnHeap v item p b e w = elim (Bool-cases (v.vec_size == N)) [
    | inl h ↦ rw h (grown v.stack_vec (w.elements (ground arith)))
    | inr h ↦ let o = w.on_heap (ground arith) in rw h (rw o.there (grown o.array o.elements))
  ]
    where
      fresh : ℕ → A
      fresh = new_array (v.vec_capacity * 2)

      bigger : (ℕ → A) → Vec A
      bigger src = record v {
        heap_vec = some (copy_loop N new_array v.vec_size src fresh);
        vec_capacity = v.vec_capacity * 2;
      }

      grown :
          (src : ℕ → A)
          → ((i : ℕ) → i < v.vec_size → src i ≡ item i)
          → OnHeap (bigger src) item
            × (v.vec_size ≡ v.vec_size)
            × (v.vec_size < v.vec_capacity * 2)
            × (v.stack_vec ≡ v.stack_vec)
      grown src f = (
        record {
          array = copy_loop N new_array v.vec_size src fresh;
          there = refl;
          room = omega arith;
          elements = λ i c. copy_loop-at v.vec_size src fresh i c ∙ f i c;
        },
        refl,
        omega arith,
        refl,
      )

  constructed-Holds :
      (v : Vec A) (item : ℕ → A) (args : Ref A) (a : A)
      → load N new_array v args ≡ ok a
      → N ≤ v.vec_size
      → v.vec_size < v.vec_capacity
      → OnHeap v item
      → Returns
          (λ t.
            (t.vec_size ≡ v.vec_size + 1) × Holds N t (λ i. if i == v.vec_size then a else item i))
          (construct_on_heap N new_array v args)
  unfolding construct_on_heap
  constructed-Holds v item args a read b c o = rw read (
      rw o.there (
        rw inside (
          refl,
          record {
            on_stack = λ h. absurd (omega arith);
            elements = λ h. absurd (omega arith);
            on_heap = λ h. record {
              array = update o.array v.vec_size a;
              there = refl;
              room = omega arith;
              elements = λ i e. ground (arith, o.elements i);
            };
          },
        )))
    where
      inside : ltb v.vec_size v.vec_capacity ≡ true
      inside = ground arith

  same_size :
      (v w : Vec A) (item : ℕ → A) (a : A)
      → w.vec_size ≡ v.vec_size
      → (t : Vec A)
      → (t.vec_size ≡ w.vec_size + 1) × Holds N t (λ i. if i == w.vec_size then a else item i)
      → (t.vec_size ≡ v.vec_size + 1) × Holds N t (λ i. if i == v.vec_size then a else item i)
  same_size v w item a e t h =
      subst (λ n. (t.vec_size ≡ n + 1) × Holds N t (λ i. if i == n then a else item i)) e h

  abbrev pub is_in_heap : Ref A → Bool
  is_in_heap (in_heap i) = true
  is_in_heap args = false

  -- An argument that is not in the old array is read as before.
  load-after_grow :
      (v t : Vec A) (args : Ref A) (a : A)
      → t.stack_vec ≡ v.stack_vec
      → is_in_heap args ≡ false
      → load N new_array v args ≡ ok a
      → load N new_array t (after_grow N new_array args) ≡ ok a
  unfolding load after_grow
  load-after_grow v t (outside b) a s o e = e
  load-after_grow v t (in_stack i) a s o e =
      ap (λ (f : ℕ → A). if ltb i N then ok (f i) else undefined) s ∙ e
  load-after_grow v t (in_heap i) a s o e = absurd cc
  load-after_grow v t dangling a s o e = e

  -- Where there is room for an element on the stack, and the argument is a reference to a value that is
  -- there, `emplace_back` returns, whether the vector stays on the stack, moves to the heap or grows
  -- there, and puts the value behind the elements; an argument in the heap array of a vector that is full
  -- is left out.
  pub emplace_back_correct :
      (v : Vec A) (item : ℕ → A) (args : Ref A) (a : A)
      → 0 < N
      → Holds N v item
      → load N new_array v args ≡ ok a
      → (v.vec_size ≢ v.vec_capacity) ⊎ (is_in_heap args ≡ false)
      → Returns
          (λ t.
            (t.vec_size ≡ v.vec_size + 1) × Holds N t (λ i. if i == v.vec_size then a else item i))
          (emplace_back N new_array v args)
  unfolding emplace_back
  emplace_back_correct v item args a p w read survives = elim (Bool-cases (ltb v.vec_size N)) [
    | inl h ↦ rw h (
        rw read (
          refl,
          record {
            on_stack = λ b. w.on_stack (ground arith);
            elements = λ b i c. ground (arith, w.elements (ground arith) i);
            on_heap = λ b. absurd (ground arith);
          },
        ))
    | inr h ↦ rw h (elim (Bool-cases (v.vec_size == v.vec_capacity)) [
      | inl e ↦ rw e (
          Returns-bind _ _ (grow N new_array v)
            (λ w. construct_on_heap N new_array w (after_grow N new_array args))
            (grow-OnHeap v item p (ground arith) (ground arith) w)
            (λ u (o, n, c, same).
              Returns-map _ _ (construct_on_heap N new_array u (after_grow N new_array args))
                (constructed-Holds u item (after_grow N new_array args) a
                  (load-after_grow v u args a same (ground arith) read) (ground arith)
                  (ground arith) o)
                (same_size v u item a n)))
      | inr e ↦ rw e (
          let o = w.on_heap (ground (arith, w.on_stack)) in
          constructed-Holds v item args a read (ground arith) (ground (arith, o.room)) o)
    ])
  ]

  -- An element of the heap array as the argument, where the array is full: `grow` deletes the array before
  -- the element is read.
  pub emplace_back_own_element :
      (v : Vec A) (item : ℕ → A) (i : ℕ)
      → 0 < N
      → Holds N v item
      → N < v.vec_size
      → v.vec_size ≡ v.vec_capacity
      → emplace_back N new_array v (in_heap i) ≡ undefined
  unfolding emplace_back grow construct_on_heap load after_grow
  emplace_back_own_element v item i p w more full =
      rw on_heap (rw is_full (rw not_first (rw (w.on_heap more).there refl)))
    where
      on_heap : ltb v.vec_size N ≡ false
      on_heap = ground arith

      is_full : (v.vec_size == v.vec_capacity) ≡ true
      is_full = ground arith

      not_first : (v.vec_size == N) ≡ false
      not_first = ground arith
