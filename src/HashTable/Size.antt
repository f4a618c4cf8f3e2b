-- ===== src/HashTable/Size.antt =====
-- `size()` against the number of entries in the chains.
use mod_cpp.Common.{
  ℕ, dec_lt, ◌≤◌, zero, suc, ◌+◌, ◌<◌, ◌≡◌, refl, update, Option, none, some, List, [], ◌∷◌, ◌++◌,
  length, length-append, arith,
}
use mod_cpp.Common.Outcome.{Returns}
use mod_cpp.HashTable.{HashTable, found_or_new, subscript, erase_found, erase, size}
use mod_cpp.HashTable.Laws.{find, get_hash-ok, erase_found-len}
use mod_cpp.HashTable.Chain

module _ {K V : Type 0} where
  -- The entries in the first `n` chains.
  unfoldable pub entries_below : ℕ → (ℕ → List (K × V)) → ℕ
  entries_below zero t = 0
  entries_below (suc n) t = entries_below n t + length (t n)

  entries_below-update_of_le :
      (n : ℕ) (t : ℕ → List (K × V)) (i : ℕ) (l : List (K × V))
      → n ≤ i
      → entries_below n (update t i l) ≡ entries_below n t
  unfolding entries_below
  entries_below-update_of_le zero t i l h = refl
  entries_below-update_of_le (suc n) t i l h = ground (arith, entries_below-update_of_le n t i l)

  entries_below-update :
      (n : ℕ) (t : ℕ → List (K × V)) (i : ℕ) (l : List (K × V))
      → i < n
      → entries_below n (update t i l) + length (t i) ≡ entries_below n t + length l
  unfolding entries_below
  entries_below-update zero t i l h = absurd (omega arith)
  entries_below-update (suc n) t i l h = elim (dec_lt i n) [
    | yes below ↦ ground (arith, entries_below-update n t i l below)
    | no last ↦ ground (arith, entries_below-update_of_le n t i l)
  ]

module _ {K V : Type 0} (eq? : Discrete K) (default_value : V) (hash_func : K → ℕ)
    (default_size : ℕ) where
  unfoldable pub entries : HashTable K V → ℕ
  entries h = entries_below default_size h.table

  -- The entries that `erase` takes away.
  abbrev found_count : Option V → ℕ
  found_count none = 0
  found_count (some v) = 1

  found_or_new-entries :
      (h : HashTable K V) (k : K) (o : Option ℕ)
      → hash_func k < default_size
      → entries (found_or_new eq? default_value hash_func default_size h k (hash_func k) o).1
          + h.len
        ≡ entries h
          + (found_or_new eq? default_value hash_func default_size h k (hash_func k) o).1.len
  unfolding entries found_or_new
  found_or_new-entries h k (some p) lt = refl
  found_or_new-entries h k none lt =
      let l = h.table (hash_func k) in
      ground (
        arith,
        entries_below-update default_size h.table (hash_func k) (l ++ (k, default_value) ∷ []) lt,
        length-append l ((k, default_value) ∷ []),
      )

  -- `operator[]` keeps `size()` in step with the entries of the table: both grow by the same number.
  pub subscript-size :
      (h : HashTable K V) (k : K)
      → hash_func k < default_size
      → Returns
          (λ p. entries p.1 + size h ≡ entries h + size p.1)
          (subscript eq? default_value hash_func default_size h k)
  unfolding subscript size
  subscript-size h k lt =
      rw (get_hash-ok eq? default_value hash_func default_size k lt) (found_or_new-entries h k _ lt)

  erase_found-entries :
      (h : HashTable K V) (k : K) (o : Option ℕ)
      → Chain.find_if eq? k (h.table (hash_func k)) ≡ o
      → hash_func k < default_size
      → entries (erase_found eq? default_value hash_func default_size h (hash_func k) o)
          + found_count (find eq? default_value hash_func default_size h k)
        ≡ entries h
  unfolding entries erase_found
  erase_found-entries h k none e lt = ground (arith, Chain.find_if-none eq? k _ e)
  erase_found-entries h k (some p) e lt =
      let l = h.table (hash_func k) in
      ground (
        arith,
        entries_below-update default_size h.table (hash_func k) (Chain.erase_at p l) lt,
        Chain.length-erase_at eq? k l p e,
        Chain.find_if-is_some eq? k l,
      )

  -- Where `size()` is the number of entries and the key has a value, `erase` takes one entry away
  -- and leaves `size()` too large by one.
  pub erase-size :
      (h : HashTable K V) (k : K) {v : V}
      → hash_func k < default_size
      → size h ≡ entries h
      → find eq? default_value hash_func default_size h k ≡ some v
      → Returns
          (λ t. (entries t + 1 ≡ entries h) × (size t ≡ entries t + 1))
          (erase eq? default_value hash_func default_size h k)
  unfolding erase size
  erase-size h k lt s f = rw (get_hash-ok eq? default_value hash_func default_size k lt) (
      ground (
        arith,
        erase_found-entries h k _ refl lt,
        erase_found-len eq? default_value hash_func default_size h (hash_func k)
            (Chain.find_if eq? k (h.table (hash_func k))),
      ))
