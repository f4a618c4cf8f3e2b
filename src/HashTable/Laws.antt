-- ===== src/HashTable/Laws.antt =====
-- The table as a map from keys to values.
use mod_cpp.Common.{
  ℕ, ◌<◌, ◌≤◌, ◌≡◌, refl, lt→ltb, update, Option, none, some, is_some, List, [], ◌∷◌, ◌++◌, length,
  ite, arith, Bool-cases, ◌==◌, inl, inr,
}
use mod_cpp.Common.Outcome.{ok, assert_failed, Returns}
use mod_cpp.HashTable.{
  HashTable, Ref, load, store, get_hash, found_or_new, subscript, erase_found, erase, count,
}
use mod_cpp.HashTable.Chain
use mod_cpp.HashTable.Chain.{Distinct}

abbrev get_or {ℓ} : {A : Type ℓ} → Option A → A → A
get_or none d = d
get_or (some a) d = a

module _ {K V : Type 0} (eq? : Discrete K) (default_value : V) (hash_func : K → ℕ)
    (default_size : ℕ) where
  -- The map that a table stands for.
  abbrev pub find : HashTable K V → K → Option V
  find h k = Chain.lookup eq? k (h.table (hash_func k))

  abbrev pub IsValid : HashTable K V → Type 0
  IsValid h = (i : ℕ) → Distinct eq? (h.table i)

  pub get_hash-ok :
      (k : K)
      → hash_func k < default_size
      → get_hash eq? default_value hash_func default_size k ≡ ok (hash_func k)
  unfolding get_hash
  get_hash-ok k h = rw (lt→ltb _ _ h)

  -- What `operator[]` returns: a reference to the value of the key, which is new if there was none.
  pub record Subscripted (h : HashTable K V) (k : K) (p : Ref × HashTable K V) : Type 0 where
    pub loads : load p.1 p.0 ≡ ok (get_or (find h k) default_value)
    pub finds :
        (j : K) → find p.1 j ≡ ite (eq? k j) (some (get_or (find h k) default_value)) (find h j)
    pub stores : (v : V) (j : K) → find (store p.1 p.0 v) j ≡ ite (eq? k j) (some v) (find h j)

  found_lem :
      (h : HashTable K V) (k : K) (o : Option ℕ)
      → Chain.find_if eq? k (h.table (hash_func k)) ≡ o
      → Subscripted h k (found_or_new eq? default_value hash_func default_size h k (hash_func k) o)
  unfolding found_or_new load store
  found_lem h k (some i) e =
      let l = h.table (hash_func k) in
      let loads = Chain.load_at-find_if eq? k l i e in
      let there = Chain.find_if-is_some eq? k l in
      record {
        loads = ground (arith, loads, there);
        finds = λ j. ground (arith, loads, there);
        stores = λ v j. ground (arith, Chain.lookup-store_at eq? k l i v j);
      }
  found_lem h k none e =
      let l = h.table (hash_func k) in
      let missing = Chain.find_if-none eq? k l e in
      let pushed = Chain.find_if-push_back eq? k l default_value e in
      record {
        loads = ground (arith, missing, Chain.load_at-push_back eq? k l default_value);
        finds = λ j. ground (arith, missing, Chain.lookup-push_back eq? k l default_value j);
        stores = λ v j. ground (
          arith,
          Chain.lookup-push_back eq? k l default_value j,
          Chain.lookup-store_at eq? k (l ++ (k, default_value) ∷ []) (length l) v j,
          pushed,
          missing,
        );
      }

  -- `operator[]` succeeds for a key whose hash is in range. The reference reads the value of the key,
  -- or the default if it had none; the map then has that value at the key and is otherwise unchanged;
  -- a value written through the reference becomes the value of the key, and of no other.
  pub subscript_correct :
      (h : HashTable K V) (k : K)
      → hash_func k < default_size
      → Returns (Subscripted h k) (subscript eq? default_value hash_func default_size h k)
  unfolding subscript
  subscript_correct h k lt = rw (get_hash-ok k lt) (found_lem h k _ refl)

  -- `count` says whether the key is in the map.
  pub count_correct :
      (h : HashTable K V) (k : K)
      → hash_func k < default_size
      → count eq? default_value hash_func default_size h k ≡ ok (is_some (find h k))
  unfolding count
  count_correct h k lt = rw (get_hash-ok k lt, Chain.find_if-is_some)

  erase_found_lem :
      (h : HashTable K V) (k : K) (o : Option ℕ)
      → Chain.find_if eq? k (h.table (hash_func k)) ≡ o
      → IsValid h
      → (j : K)
      → find (erase_found eq? default_value hash_func default_size h (hash_func k) o) j
        ≡ ite (eq? k j) none (find h j)
  unfolding erase_found
  erase_found_lem h k none e v j = ground (arith, Chain.find_if-none eq? k _ e)
  erase_found_lem h k (some i) e v j =
      ground (arith, Chain.lookup-erase_at eq? k (h.table (hash_func k)) i j (v (hash_func k)) e)

  update-Distinct :
      (t : ℕ → List (K × V)) (i : ℕ) (l : List (K × V))
      → ((n : ℕ) → Distinct eq? (t n))
      → Distinct eq? l
      → (n : ℕ) → Distinct eq? (update t i l n)
  update-Distinct t i l v d n = elim (Bool-cases (i == n)) [
    | inl same ↦ rw same d
    | inr other ↦ rw other (v n)
  ]

  erase_found-IsValid :
      (h : HashTable K V) (i : ℕ) (o : Option ℕ)
      → IsValid h
      → IsValid (erase_found eq? default_value hash_func default_size h i o)
  unfolding erase_found
  erase_found-IsValid h i none v = v
  erase_found-IsValid h i (some p) v =
      update-Distinct h.table i _ v (Chain.Distinct-erase_at eq? (h.table i) p (v i))

  pub erase_found-len :
      (h : HashTable K V) (i : ℕ) (o : Option ℕ)
      → (erase_found eq? default_value hash_func default_size h i o).len ≡ h.len
  unfolding erase_found
  erase_found-len h i none = refl
  erase_found-len h i (some p) = refl

  found_or_new-IsValid :
      (h : HashTable K V) (k : K) (o : Option ℕ)
      → Chain.find_if eq? k (h.table (hash_func k)) ≡ o
      → IsValid h
      → IsValid (found_or_new eq? default_value hash_func default_size h k (hash_func k) o).1
  unfolding found_or_new
  found_or_new-IsValid h k (some p) e v = v
  found_or_new-IsValid h k none e v = update-Distinct h.table (hash_func k) _ v (
      Chain.Distinct-push_back eq? k (h.table (hash_func k)) default_value
        (Chain.find_if-none eq? k (h.table (hash_func k)) e) (v (hash_func k)))

  pub store-IsValid : (h : HashTable K V) (r : Ref) (w : V) → IsValid h → IsValid (store h r w)
  unfolding store
  store-IsValid h r w v =
      update-Distinct h.table r.chain _ v
        (Chain.Distinct-store_at eq? (h.table r.chain) r.place w (v r.chain))

  pub subscript-IsValid :
      (h : HashTable K V) (k : K)
      → IsValid h
      → hash_func k < default_size
      → Returns (λ p. IsValid p.1) (subscript eq? default_value hash_func default_size h k)
  unfolding subscript
  subscript-IsValid h k v lt = rw (get_hash-ok k lt) (found_or_new-IsValid h k _ refl v)

  -- `erase` succeeds for a key whose hash is in range: on a valid table it takes the key out of the
  -- map and changes no other, the table stays valid, and `len` is left as it was.
  pub erase_correct :
      (h : HashTable K V) (k : K)
      → IsValid h
      → hash_func k < default_size
      → Returns
          (λ t. ((j : K) → find t j ≡ ite (eq? k j) none (find h j)) × IsValid t × (t.len ≡ h.len))
          (erase eq? default_value hash_func default_size h k)
  unfolding erase
  erase_correct h k v lt = rw (get_hash-ok k lt) (
    erase_found_lem h k _ refl v,
    erase_found-IsValid h (hash_func k) _ v,
    erase_found-len h (hash_func k) _,
  )

  -- `operator[]`, `erase` and `count` fail their assertion for a key whose hash is out of range.
  pub hash_out_of_range :
      (h : HashTable K V) (k : K)
      → default_size ≤ hash_func k
      → (subscript eq? default_value hash_func default_size h k ≡ assert_failed)
        × (erase eq? default_value hash_func default_size h k ≡ assert_failed)
        × (count eq? default_value hash_func default_size h k ≡ assert_failed)
  unfolding subscript erase count get_hash
  hash_out_of_range h k le = ground arith
