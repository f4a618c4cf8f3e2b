-- ===== src/HashTable.antt =====
-- hash_table.cc: `HashTable`, an array of chains. `Key`, `Value`, `Hash` and `DefaultSize` are the
-- parameters of the section below, with the equality test of `Key` and the value of `Value()`.
pub mod Chain
pub mod Laws
pub mod Size
mod Routine
mod Tests
use mod_cpp.Common.{
  ℕ, ◌+◌, Bool, true, ltb, update, Option, none, some, is_some, List, [], ◌∷◌, ◌++◌, length,
}
use mod_cpp.Common.Outcome.{Outcome, ok, ◌>>=◌, ◌>>◌, assert, or_undefined}
use Chain.{find_if, load_at, store_at, erase_at}

-- `table` has `DefaultSize` chains. `len` is a size_t: no run makes 2 ^ 64 entries.
pub record HashTable (K V : Type 0) : Type 0 where
  pub table : ℕ → List (K × V)
  pub len : ℕ

-- A `Value&` into the table: the chain, and the place of the node in it.
pub record Ref : Type 0 where
  pub chain : ℕ
  pub place : ℕ

module _ {K V : Type 0} where
  unfoldable pub load : HashTable K V → Ref → Outcome V
  unfolding load_at
  load h r = or_undefined (load_at r.place (h.table r.chain))

  unfoldable pub store : HashTable K V → Ref → V → HashTable K V
  unfolding store_at
  store h r v = record h { table = update h.table r.chain (store_at r.place v (h.table r.chain)) }

  unfoldable pub size : HashTable K V → ℕ
  size h = h.len

  unfoldable pub new : HashTable K V
  new = record { table = λ _. []; len = 0 }

module _ {K V : Type 0} (eq? : Discrete K) (default_value : V) (hash_func : K → ℕ)
    (default_size : ℕ) where
  -- `hash_val >= 0` holds of every size_t.
  unfoldable pub get_hash : K → Outcome ℕ
  get_hash k = do assert (ltb (hash_func k) default_size); ok (hash_func k)

  -- `operator[]` in chain `i`, with what `find_if` found there
  unfoldable pub found_or_new : HashTable K V → K → ℕ → Option ℕ → Ref × HashTable K V
  found_or_new h k i (some p) = (record { chain = i; place = p }, h)
  found_or_new h k i none =
      let list = h.table i in
      (
        record { chain = i; place = length list },
        record { table = update h.table i (list ++ (k, default_value) ∷ []); len = h.len + 1 },
      )

  -- `operator[]`
  unfoldable pub subscript : HashTable K V → K → Outcome (Ref × HashTable K V)
  unfolding get_hash find_if found_or_new
  subscript h k = do i ← get_hash k; ok (found_or_new h k i (find_if eq? k (h.table i)))

  -- `erase` in chain `i`, with what `find_if` found there
  unfoldable pub erase_found : HashTable K V → ℕ → Option ℕ → HashTable K V
  erase_found h i none = h
  erase_found h i (some p) = record h { table = update h.table i (erase_at p (h.table i)) }

  unfoldable pub erase : HashTable K V → K → Outcome (HashTable K V)
  erase h k = do i ← get_hash k; ok (erase_found h i (find_if eq? k (h.table i)))

  unfoldable pub count : HashTable K V → K → Outcome Bool
  count h k = do i ← get_hash k; ok (is_some (find_if eq? k (h.table i)))
