-- ===== src/HashTable/Chain.antt =====
-- One chain of the table, a `std::list<Node>`.
use mod_cpp.Common.{
  ℕ, zero, suc, ◌≡◌, refl, Option, none, some, is_some, List, [], ◌∷◌, ◌++◌, ite, length, ◌+◌,
  arith,
}
use mathlib.Core.Option

module _ {K V : Type 0} (eq? : Discrete K) where
  -- `std::find_if` for the node of a key: its place, or `none` for `end()`
  unfoldable pub find_if : K → List (K × V) → Option ℕ
  find_if k [] = none
  find_if k ((j, v) ∷ l) = ite (eq? j k) (some 0) (Option.map suc (find_if k l))

  -- what a chain says of a key
  unfoldable pub lookup : K → List (K × V) → Option V
  lookup k [] = none
  lookup k ((j, v) ∷ l) = ite (eq? j k) (some v) (lookup k l)

module _ {K V : Type 0} where
  unfoldable pub load_at : ℕ → List (K × V) → Option V
  load_at i [] = none
  load_at zero ((j, v) ∷ l) = some v
  load_at (suc i) ((j, v) ∷ l) = load_at i l

  unfoldable pub store_at : ℕ → V → List (K × V) → List (K × V)
  store_at i w [] = []
  store_at zero w ((j, v) ∷ l) = (j, w) ∷ l
  store_at (suc i) w ((j, v) ∷ l) = (j, v) ∷ store_at i w l

  unfoldable pub erase_at : ℕ → List (K × V) → List (K × V)
  erase_at i [] = []
  erase_at zero (n ∷ l) = l
  erase_at (suc i) (n ∷ l) = n ∷ erase_at i l

module _ {K V : Type 0} (eq? : Discrete K) where
  pub load_at-find_if :
      (k : K) (l : List (K × V)) (i : ℕ) → find_if eq? k l ≡ some i → load_at i l ≡ lookup eq? k l
  unfolding find_if load_at lookup
  load_at-find_if k [] i h = ground arith
  load_at-find_if k ((j, v) ∷ l) zero h = ground (arith, load_at-find_if k l)
  load_at-find_if k ((j, v) ∷ l) (suc i) h = ground (arith, load_at-find_if k l i)

  pub find_if-none : (k : K) (l : List (K × V)) → find_if eq? k l ≡ none → lookup eq? k l ≡ none
  unfolding find_if lookup
  find_if-none k [] h = refl
  find_if-none k ((j, v) ∷ l) h = ground (arith, find_if-none k l)

  pub find_if-is_some :
      (k : K) (l : List (K × V)) → is_some (find_if eq? k l) ≡ is_some (lookup eq? k l)
  unfolding find_if lookup
  find_if-is_some k [] = refl
  find_if-is_some k ((j, v) ∷ l) = ground (arith, find_if-is_some k l)

  pub lookup-store_at :
      (k : K) (l : List (K × V)) (i : ℕ) (w : V) (j : K)
      → find_if eq? k l ≡ some i
      → lookup eq? j (store_at i w l) ≡ ite (eq? k j) (some w) (lookup eq? j l)
  unfolding find_if store_at lookup
  lookup-store_at k [] i w j h = ground arith
  lookup-store_at k ((m, v) ∷ l) zero w j h = ground (arith)
  lookup-store_at k ((m, v) ∷ l) (suc i) w j h = ground (arith, lookup-store_at k l i w j)

  pub lookup-push_back :
      (k : K) (l : List (K × V)) (w : V) (j : K)
      → lookup eq? k l ≡ none
      → lookup eq? j (l ++ (k, w) ∷ []) ≡ ite (eq? k j) (some w) (lookup eq? j l)
  unfolding lookup
  lookup-push_back k [] w j h = refl
  lookup-push_back k ((m, v) ∷ l) w j h = ground (arith, lookup-push_back k l w j)

  pub load_at-push_back :
      (k : K) (l : List (K × V)) (w : V) → load_at (length l) (l ++ (k, w) ∷ []) ≡ some w
  unfolding load_at
  load_at-push_back k [] w = refl
  load_at-push_back k ((m, v) ∷ l) w = load_at-push_back k l w

  pub find_if-push_back :
      (k : K) (l : List (K × V)) (w : V)
      → find_if eq? k l ≡ none
      → find_if eq? k (l ++ (k, w) ∷ []) ≡ some (length l)
  unfolding find_if
  find_if-push_back k [] w h = ground arith
  find_if-push_back k ((m, v) ∷ l) w h = ground (arith, find_if-push_back k l w)

  -- every key at most once
  unfoldable pub Distinct : List (K × V) → Type 0
  Distinct [] = Unit
  Distinct ((k, v) ∷ l) = (lookup eq? k l ≡ none) × Distinct l

  pub lookup-erase_at :
      (k : K) (l : List (K × V)) (i : ℕ) (j : K)
      → Distinct l
      → find_if eq? k l ≡ some i
      → lookup eq? j (erase_at i l) ≡ ite (eq? k j) none (lookup eq? j l)
  unfolding find_if erase_at lookup Distinct
  lookup-erase_at k [] i j d h = ground arith
  lookup-erase_at k ((m, v) ∷ l) zero j d h = ground (arith)
  lookup-erase_at k ((m, v) ∷ l) (suc i) j d h = ground (arith, lookup-erase_at k l i j)

  pub lookup-store_at-none :
      (l : List (K × V)) (i : ℕ) (w : V) (j : K)
      → lookup eq? j l ≡ none
      → lookup eq? j (store_at i w l) ≡ none
  unfolding lookup store_at
  lookup-store_at-none [] i w j h = refl
  lookup-store_at-none ((m, v) ∷ l) zero w j h = ground arith
  lookup-store_at-none ((m, v) ∷ l) (suc i) w j h = ground (arith, lookup-store_at-none l i w j)

  pub lookup-erase_at-none :
      (l : List (K × V)) (i : ℕ) (j : K)
      → lookup eq? j l ≡ none
      → lookup eq? j (erase_at i l) ≡ none
  unfolding lookup erase_at
  lookup-erase_at-none [] i j h = refl
  lookup-erase_at-none ((m, v) ∷ l) zero j h = ground arith
  lookup-erase_at-none ((m, v) ∷ l) (suc i) j h = ground (arith, lookup-erase_at-none l i j)

  pub Distinct-store_at :
      (l : List (K × V)) (i : ℕ) (w : V) → Distinct l → Distinct (store_at i w l)
  unfolding Distinct store_at
  Distinct-store_at [] i w d = d
  Distinct-store_at ((m, v) ∷ l) zero w d = d
  Distinct-store_at ((m, v) ∷ l) (suc i) w d =
      (lookup-store_at-none l i w m d.0, Distinct-store_at l i w d.1)

  pub Distinct-erase_at : (l : List (K × V)) (i : ℕ) → Distinct l → Distinct (erase_at i l)
  unfolding Distinct erase_at
  Distinct-erase_at [] i d = d
  Distinct-erase_at ((m, v) ∷ l) zero d = d.1
  Distinct-erase_at ((m, v) ∷ l) (suc i) d =
      (lookup-erase_at-none l i m d.0, Distinct-erase_at l i d.1)

  pub Distinct-push_back :
      (k : K) (l : List (K × V)) (w : V)
      → lookup eq? k l ≡ none
      → Distinct l
      → Distinct (l ++ (k, w) ∷ [])
  unfolding Distinct lookup
  Distinct-push_back k [] w h d = (refl, tt)
  Distinct-push_back k ((m, v) ∷ l) w h d =
      ground (arith, lookup-push_back k l w m, Distinct-push_back k l w)

  pub length-store_at : (l : List (K × V)) (i : ℕ) (w : V) → length (store_at i w l) ≡ length l
  unfolding store_at
  length-store_at [] i w = refl
  length-store_at ((m, v) ∷ l) zero w = refl
  length-store_at ((m, v) ∷ l) (suc i) w = omega (arith, length-store_at l i w)

  pub length-erase_at :
      (k : K) (l : List (K × V)) (i : ℕ)
      → find_if eq? k l ≡ some i
      → length (erase_at i l) + 1 ≡ length l
  unfolding erase_at find_if
  length-erase_at k [] i h = ground arith
  length-erase_at k ((m, v) ∷ l) zero h = omega arith
  length-erase_at k ((m, v) ∷ l) (suc i) h = ground (arith, length-erase_at k l i)
