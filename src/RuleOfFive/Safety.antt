-- ===== src/RuleOfFive/Safety.antt =====
-- What the constructors own and give back.
use mod_cpp.Common.{ℕ, ◌≡◌, ◌≢◌, refl, true, false, update, ℕ_discrete, Option, none, some, arith}
use mod_cpp.Common.Outcome.{ok, Returns}
use mod_cpp.RuleOfFive.{
  Store, RDerived, Constructed, made, threw, new_cell, fail, construct, copy_derived,
  copy_construct, destroy,
}

-- Two different addresses that are not in use, and a descriptor that is not open.
pub record IsFresh {T : Type 0} (s : Store T) (a b : ℕ) (sock : Option ℕ) : Type 0 where
  pub first : s.heap a ≡ none
  pub second : s.heap b ≡ none
  pub apart : a ≢ b
  pub closed : (fd : ℕ) → sock ≡ some fd → s.is_open fd ≡ false

pub record Same {T : Type 0} (s t : Store T) : Type 0 where
  pub heap : (i : ℕ) → t.heap i ≡ s.heap i
  pub is_open : (fd : ℕ) → t.is_open fd ≡ s.is_open fd

-- `x` owns two cells with these values and an open descriptor, none of which was in use in `s`; and
-- everything that was in use is as it was.
pub record Added {T : Type 0} (s t : Store T) (x : RDerived) (base derived : T) : Type 0 where
  pub a : ℕ
  pub b : ℕ
  pub apart : a ≢ b
  pub base_at : (x.data_at ≡ some a) × (t.heap a ≡ some base)
  pub derived_at : (x.derived_data ≡ some b) × (t.heap b ≡ some derived)
  pub socket : t.is_open x.sockfd ≡ true
  pub kept : (i : ℕ) (v : T) → s.heap i ≡ some v → (t.heap i ≡ some v) × (i ≢ a) × (i ≢ b)
  pub open_kept : (fd : ℕ) → s.is_open fd ≡ true → (t.is_open fd ≡ true) × (fd ≢ x.sockfd)

-- All that was in use in `s` is in use as before.
pub record Intact {T : Type 0} (s u : Store T) : Type 0 where
  pub heap : (i : ℕ) (y : T) → s.heap i ≡ some y → u.heap i ≡ some y
  pub is_open : (fd : ℕ) → s.is_open fd ≡ true → u.is_open fd ≡ true

-- An object, or an exception with the store as it was before.
abbrev pub Outcomes : {T : Type 0} → Store T → T → T → Option ℕ → Store T × Constructed → Type 0
Outcomes s base derived none (t, threw e) = Same s t
Outcomes s base derived none (t, made x) = ⊥
Outcomes s base derived (some fd) (t, threw e) = ⊥
Outcomes s base derived (some fd) (t, made x) = Added s t x base derived

module _ {T : Type 0} (zero : T) where
  fail_deletes :
      (t : Store T) (a b : ℕ) (v w : T)
      → a ≢ b
      → t.heap a ≡ some v
      → t.heap b ≡ some w
      → fail zero t a b
        ≡ ok (
          record t { heap = update (update t.heap b none) a none },
          threw "Error creating socket",
        )
  unfolding fail
  fail_deletes t a b v w apart at_a at_b = rw at_b (rw still refl)
    where
      still : update t.heap b none a ≡ some v
      still = ground arith

  -- Both cells are given back, and nothing else was changed.
  fail-Same :
      (s t : Store T) (a b : ℕ) (sock : Option ℕ) (base derived v w : T)
      → IsFresh s a b sock
      → t.heap a ≡ some v
      → t.heap b ≡ some w
      → ((i : ℕ) → i ≢ a → i ≢ b → t.heap i ≡ s.heap i)
      → ((fd : ℕ) → t.is_open fd ≡ s.is_open fd)
      → Returns (Outcomes s base derived none) (fail zero t a b)
  fail-Same s t a b sock base derived v w h at_a at_b others sockets =
      rw (fail_deletes t a b v w h.apart at_a at_b)
        (record { heap = λ i. back i; is_open = sockets })
    where
      back : (i : ℕ) → update (update t.heap b none) a none i ≡ s.heap i
      back i = elim (ℕ_discrete i a) [
        | yes e ↦ ground (arith, h.first)
        | no not_a ↦ elim (ℕ_discrete i b) [
          | yes e ↦ ground (arith, h.second)
          | no not_b ↦ ground (arith, others i not_a not_b)
        ]
      ]

  -- `RDerived()` with fresh memory: where `socket` succeeds the object owns two new cells with `T()` and
  -- the descriptor; where it fails the constructor throws, and the memory and the descriptors are as
  -- they were before.
  pub construct_safe :
      (s : Store T) (a b : ℕ) (sock : Option ℕ)
      → IsFresh s a b sock
      → Returns (Outcomes s zero zero sock) (construct zero s a b sock)
  unfolding construct
  construct_safe s a b none h =
      fail-Same s (new_cell zero (new_cell zero s a) b) a b none zero zero zero zero h
        (ground (arith, h.apart)) (ground arith) (λ i not_a not_b. ground arith) (λ fd. refl)
  construct_safe s a b (some fd) h = record {
    a = a;
    b = b;
    apart = h.apart;
    base_at = (refl, ground (arith, h.apart));
    derived_at = (refl, ground arith);
    socket = ground arith;
    kept = λ i v e.
        (ground (arith, h.first, h.second), ground (arith, h.first), ground (arith, h.second));
    open_kept = λ f e. (ground arith, ground (arith, h.closed fd refl));
  }

  -- `RDerived(const RDerived&)` of an object whose two cells exist, with fresh memory: where `socket`
  -- succeeds the copy owns two new cells with the values of the source and a descriptor of its own;
  -- where it fails the constructor throws, and the memory and the descriptors are as they were before.
  pub copy_construct_safe :
      (s : Store T) (rhs : RDerived) (c d : ℕ) (base derived : T) (a b : ℕ) (sock : Option ℕ)
      → rhs.data_at ≡ some c
      → rhs.derived_data ≡ some d
      → s.heap c ≡ some base
      → s.heap d ≡ some derived
      → IsFresh s a b sock
      → Returns (Outcomes s base derived sock) (copy_construct zero s rhs a b sock)
  unfolding copy_construct
  copy_construct_safe s rhs c d base derived a b sock at_c at_d base_at derived_at h =
      rw at_c (rw still_base (after sock h))
    where
      still_base : update s.heap a (some zero) c ≡ some base
      still_base = ground (arith, h.first)

      t : Store T
      t = record s { heap = update (update s.heap a (some zero)) a (some base) }

      still_derived : update t.heap b (some zero) d ≡ some derived
      still_derived = ground (arith, h.first, h.second)

      after :
          (sock : Option ℕ)
          → IsFresh s a b sock
          → Returns (Outcomes s base derived sock) (copy_derived zero t rhs a b sock)
      after none f =
          fail-Same s (new_cell zero t b) a b none base derived base zero f
            (ground (arith, f.apart)) (ground arith) (λ i not_a not_b. ground arith) (λ fd. refl)
      after (some fd) f = rw at_d (
          rw still_derived (record {
            a = a;
            b = b;
            apart = f.apart;
            base_at = (refl, ground (arith, f.apart));
            derived_at = (refl, ground arith);
            socket = ground arith;
            kept = λ i v e. (
              ground (arith, f.first, f.second),
              ground (arith, f.first),
              ground (arith, f.second),
            );
            open_kept = λ k e. (ground arith, ground (arith, f.closed fd refl));
          }))

  -- What a constructor added, the destructor gives back: it reads no memory that does not exist, and
  -- everything that was in use before the constructor is as it was.
  pub destroy-Added :
      (s t : Store T) (x : RDerived) (base derived : T)
      → Added s t x base derived
      → Returns (Intact s) (destroy zero t x)
  unfolding destroy
  destroy-Added s t x base derived v = rw v.derived_at.0 (
      rw v.derived_at.1 (
        rw v.base_at.0 (
          rw still (record {
            heap = λ i y e. ground (arith, v.kept i y e);
            is_open = λ fd e. ground (arith, v.open_kept fd e);
          }))))
    where
      still : update t.heap v.b none v.a ≡ some base
      still = ground (arith, v.apart, v.base_at.1)
