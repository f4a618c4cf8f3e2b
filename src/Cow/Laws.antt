-- ===== src/Cow/Laws.antt =====
-- The members of `COW` together.
use mod_cpp.Common.{
  ℕ, ◌+◌, ◌-◌, ◌<◌, ◌≡◌, ◌≢◌, refl, Bool-cases, Option-cases, inl, inr, true, false, not, ◌==◌,
  update, Option, none, some, is_some, arith,
}
use mod_cpp.Common.Outcome.{Outcome, ok, undefined, ◌>>=◌, ◌>>◌, assert, Returns}
use mod_cpp.Common.RefCount.{refs, refs-update}
use mod_cpp.Cow.{
  Store, count, decrese_refcnt, increase, new_data, copy_construct, assign, assign_other,
  move_construct, destroy, detach, mutable_operation,
}
use mod_cpp.Cow.Counted.{
  IsCounted, dropped, attached, detached, dropped-IsCounted, attached-IsCounted, detached-IsCounted,
  sole,
}

itself : (g : ℕ → Option ℕ) (i : ℕ) (a : Option ℕ) → update g i a i ≡ a
itself g i a = ground arith

count_at :
    (s : Store) (i m n : ℕ)
    → s.data_of i ≡ some m
    → s.refcnt m ≡ some n
    → count s (s.data_of i) ≡ ok (m, n)
unfolding count
count_at s i m n e c = rw e (rw c refl)

skipped : (g : ℕ → Option ℕ) (i j : ℕ) (a : Option ℕ) → i ≢ j → update g i a j ≡ g j
skipped g i j a d = ground arith

detach-ok :
    (s : Store) (i m n : ℕ)
    → s.next ≢ m
    → s.refcnt m ≡ some n
    → n ≢ 1
    → 0 < n
    → detach s i m ≡ ok (detached s i m n)
unfolding detach decrese_refcnt new_data count
detach-ok s i m n f c d p = rw (skipped s.refcnt s.next m (some 1) f) (rw c (rw last refl))
  where
    last : (n - 1 == 0) ≡ false
    last = ground arith

count-gone :
    (s : Store) (i m : ℕ)
    → s.data_of i ≡ some m
    → s.refcnt m ≡ none
    → count s (s.data_of i) ≡ undefined
unfolding count
count-gone s i m e c = rw e (rw c refl)

update_twice :
    (g : ℕ → Option ℕ) (i : ℕ) (a b : Option ℕ) (k : ℕ)
    → update (update g i a) i b k ≡ update g i b k
update_twice g i a b k = ground arith

update-update :
    (g : ℕ → Option ℕ) (i : ℕ) (a b : Option ℕ) → update (update g i a) i b ≡ update g i b
update-update g i a b = λ t k. update_twice g i a b k t

assign_other-ok :
    (s : Store) (i j k m n c : ℕ)
    → s.data_of i ≡ some k
    → s.data_of j ≡ some m
    → s.refcnt k ≡ some n
    → (dropped s i k n).refcnt m ≡ some c
    → assign_other s i j ≡ ok (attached (dropped s i k n) i m c)
unfolding assign_other decrese_refcnt increase count
assign_other-ok s i j k m n c d e h h' =
    rw d (rw h (rw e (rw h' (rw (update-update s.data_of i none (some m)) refl))))

-- What `mutable_operation` promises of the store `t` that it leaves: the object has a cell of its own
-- with the old content, and no other object notices.
pub record IsOwner (s t : Store) (i m : ℕ) : Type 0 where
  pub cell : ℕ
  pub points_to : t.data_of i ≡ some cell
  pub count_is_1 : t.refcnt cell ≡ some 1
  pub content : t.vec cell ≡ s.vec m
  pub others : (j : ℕ) → j ≢ i → (t.data_of j ≡ s.data_of j) × (t.data_of j ≢ some cell)
  pub contents : (j l : ℕ) → s.data_of j ≡ some l → t.vec l ≡ s.vec l

module _ {size : ℕ} (s : Store) (v : IsCounted size s) where
  count-ok : (i m : ℕ) → s.data_of i ≡ some m → (n : ℕ) × (s.refcnt m ≡ some n)
  count-ok i m e = elim (Option-cases (s.refcnt m)) [
    | inl c ↦ absurd (ground (arith, v.backed i m e))
    | inr r ↦ r
  ]

  -- On an object with content, `mutable_operation` passes its assertion, keeps the counts right and leaves
  -- the object with a cell of its own that has the old content; the other objects keep their cells, and
  -- all the old contents stay.
  pub mutable_operation_correct :
      (i m : ℕ)
      → s.data_of i ≡ some m
      → Returns (λ t. IsCounted size t × IsOwner s t i m) (mutable_operation s i)
  unfolding mutable_operation
  mutable_operation_correct i m e =
      let (n, c) = count-ok i m e in
      rw (count_at s i m n e c) (elim (Bool-cases (n == 1)) [
        | inl h ↦ rw h (own i m n e c h)
        | inr h ↦ rw h (copied i m n e c h)
      ])
    where
      Result : ℕ → ℕ → Outcome Store → Type 0
      Result i m o =
          Returns (λ t. IsCounted size t × IsOwner s t i m)
            (do t ← o; (_, n') ← count t (t.data_of i); assert (n' == 1); ok t)

      own :
          (i m n : ℕ)
          → s.data_of i ≡ some m
          → s.refcnt m ≡ some n
          → (n == 1) ≡ true
          → Result i m (ok s)
      own i m n e c h = rw (count_at s i m 1 e (ground arith)) (
        v,
        record {
          cell = m;
          points_to = e;
          count_is_1 = ground arith;
          content = refl;
          others = λ j d. (refl, sole s v i j m e (ground arith) d);
          contents = λ j l d. refl;
        },
      )

      copied :
          (i m n : ℕ)
          → s.data_of i ≡ some m
          → s.refcnt m ≡ some n
          → (n == 1) ≡ false
          → Result i m (detach s i m)
      copied i m n e c h =
          rw
            (detach-ok s i m n (ground (arith, v.fresh m)) c (ground arith)
              (ground (arith, v.counted m n c)))
            (rw (count_at (detached s i m n) i s.next 1 (ground arith) (ground (arith, v.fresh m)))
              (
                detached-IsCounted s v i m n e c (ground arith),
                record {
                  cell = s.next;
                  points_to = ground arith;
                  count_is_1 = ground (arith, v.fresh m);
                  content = ground arith;
                  others = λ j d. (ground arith, ground (arith, v.backed j s.next, v.fresh s.next));
                  contents = λ j l d. ground (arith, v.backed j l, v.fresh l);
                },
              ))

  -- Destroying an object with content keeps the counts right, deletes the cell exactly if this was the
  -- only object that pointed to it, and leaves one pointer less to it.
  pub destroy_counts :
      (i m : ℕ)
      → s.data_of i ≡ some m
      → Returns
          (λ t.
            IsCounted size t
            × (is_some (t.refcnt m) ≡ not (refs size s.data_of m == 1))
            × (refs size t.data_of m + 1 ≡ refs size s.data_of m))
          (destroy s i)
  unfolding destroy decrese_refcnt count
  destroy_counts i m e =
      let (n, c) = count-ok i m e in
      rw e (
        rw c (
          dropped-IsCounted s v i m n e c,
          ground (arith, v.counted m n c),
          ground (arith, refs-update size s.data_of i none m (v.bounded i m e)),
        ))

  -- The copy construction from an object with content keeps the counts right, makes the two share the cell
  -- and copies no content.
  pub copy_construct_counts :
      (i j m : ℕ)
      → i < size
      → s.data_of i ≡ none
      → s.data_of j ≡ some m
      → Returns
          (λ t.
            IsCounted size t
            × (t.data_of i ≡ some m)
            × (t.data_of j ≡ some m)
            × (t.vec ≡ s.vec)
            × (refs size t.data_of m ≡ refs size s.data_of m + 1))
          (copy_construct s i j)
  unfolding copy_construct increase count
  copy_construct_counts i j m b u e =
      let (n, c) = count-ok j m e in
      rw e (
        rw c (
          attached-IsCounted s v i m n b u c,
          ground arith,
          ground arith,
          refl,
          ground (arith, refs-update size s.data_of i (some m) m b),
        ))

  -- The assignment between objects with content, also of an object to itself, keeps the counts right,
  -- makes the two share the cell of the right one and changes no content.
  pub assign_correct :
      (i j k m : ℕ)
      → s.data_of i ≡ some k
      → s.data_of j ≡ some m
      → Returns
          (λ t.
            IsCounted size t × (t.data_of i ≡ some m) × (t.data_of j ≡ some m) × (t.vec ≡ s.vec))
          (assign s i j)
  unfolding assign
  assign_correct i j k m d e = elim (Bool-cases (i == j)) [
    | inl h ↦ rw h (v, ground arith, e, refl)
    | inr h ↦
        let (n, c) = count-ok i k d in
        let w = dropped-IsCounted s v i k n d c in
        rw h (elim (Option-cases ((dropped s i k n).refcnt m)) [
          | inl g ↦ absurd (ground (arith, w.backed j m))
          | inr (n', g) ↦ rw (assign_other-ok s i j k m n n' d e c g) (
            attached-IsCounted (dropped s i k n) w i m n' (v.bounded i k d) (ground arith) g,
            ground arith,
            ground arith,
            refl,
          )
        ])
  ]

-- Where a sole owner is moved from by the move constructor, destroying the new object and then the
-- old one is undefined: both count the same cell down, which the first has deleted.
pub destroy-move_construct :
    (s : Store) (i j m : ℕ)
    → i ≢ j
    → s.data_of j ≡ some m
    → s.refcnt m ≡ some 1
    → (do t ← destroy (move_construct s i j) i; destroy t j) ≡ undefined
unfolding destroy move_construct decrese_refcnt
destroy-move_construct s i j m a e c =
    rw (count_at (move_construct s i j) i m 1 (ground arith) c) (
      rw (count-gone (dropped (move_construct s i j) i m 1) j m (ground arith) (ground arith)) refl)
