-- ===== src/SharedPointer/Laws.antt =====
-- The members of `shared_pointer` together.
use mod_cpp.Common.{
  ℕ, ◌+◌, ◌<◌, ◌≡◌, ◌≢◌, refl, sym, not, Option-cases, inl, inr, ◌==◌, update, Option, none, some,
  [], arith,
}
use mod_cpp.Common.Outcome.{ok, undefined, Returns, Returns-map}
use mod_cpp.Common.RefCount.{refs, refs-update}
use mod_cpp.SharedPointer.{
  Store, set_fields, decrease_count, decrease_with, decrease_current_refcnt, increase, attach,
  copy_construct, copy_assign, take_over, move_construct, destroy, get_refcount,
}
use mod_cpp.SharedPointer.Counted.{
  IsCounted, dropped, dropped-IsCounted, attach-IsCounted, move-IsCounted, weak-IsCounted,
}

update_twice :
    (g : ℕ → Option ℕ) (i : ℕ) (a b : Option ℕ) (k : ℕ)
    → update (update g i a) i b k ≡ update g i b k
update_twice g i a b k = ground arith

update-update :
    (g : ℕ → Option ℕ) (i : ℕ) (a b : Option ℕ) → update (update g i a) i b ≡ update g i b
update-update g i a b = λ t k. update_twice g i a b k t

skipped : (g : ℕ → Option ℕ) (i j : ℕ) (a : Option ℕ) → i ≢ j → update g i a j ≡ g j
skipped g i j a d = ground arith

itself : (g : ℕ → Option ℕ) (i : ℕ) (a : Option ℕ) → update g i a i ≡ a
itself g i a = ground arith

attach-unset : (s : Store) (i j : ℕ) → i ≢ j → attach (set_fields s i none none) i j ≡ attach s i j
unfolding attach
attach-unset s i j d = rw (skipped s.sp_data i j none d) (
    rw (skipped s.sp_metadata i j none d) (
      rw (update-update s.sp_data i none (s.sp_data j))
        (rw (update-update s.sp_metadata i none (s.sp_metadata j)) refl)))

decrease-dropped :
    (s : Store) (i p m n : ℕ)
    → s.sp_data i ≡ some p
    → s.sp_metadata i ≡ some m
    → s.refcnt m ≡ some n
    → decrease_current_refcnt s i ≡ ok (decrease_count s i p m n)
unfolding decrease_current_refcnt decrease_with
decrease-dropped s i p m n d e c = rw d (rw e (rw c refl))

-- Where a shared pointer is the only one of its value, assigning it to itself is undefined: the count
-- is reached through a pointer that was just set to null.
pub copy_assign_self :
    (s : Store) (i p m : ℕ)
    → s.sp_data i ≡ some p
    → s.sp_metadata i ≡ some m
    → s.refcnt m ≡ some 1
    → copy_assign s i i ≡ undefined
unfolding copy_assign decrease_count attach increase
copy_assign_self s i p m d e c =
    rw (decrease-dropped s i p m 1 d e c) (rw (itself s.sp_metadata i none) refl)

attach-ok :
    (s : Store) (i j p m n : ℕ)
    → s.sp_data j ≡ some p
    → s.sp_metadata j ≡ some m
    → s.refcnt m ≡ some n
    → attach s i j
      ≡ ok (record (set_fields s i (some p) (some m)) { refcnt = update s.refcnt m (some (n + 1)) })
unfolding attach increase
attach-ok s i j p m n d e c = rw d (rw e (rw c refl))

letting_go :
    {size : ℕ} (s : Store) (v : IsCounted size s) (i p m n : ℕ)
    → s.sp_data i ≡ some p
    → s.sp_metadata i ≡ some m
    → s.refcnt m ≡ some n
    → IsCounted size (dropped s i p m n)
      × ((dropped s i p m n).alive p ≡ not (refs size s.sp_metadata m == 1))
      × (refs size (dropped s i p m n).sp_metadata m + 1 ≡ refs size s.sp_metadata m)
unfolding decrease_count
letting_go {size} s v i p m n d e c = (
  dropped-IsCounted s v i p m n d e c,
  ground (arith, v.counted m n c, v.living i p d),
  ground (arith, refs-update size s.sp_metadata i none m (v.bounded i m e)),
)

-- Destroying a shared pointer that holds a value keeps the counts right, deletes the value exactly if
-- this was the only shared pointer of it, and leaves one shared pointer less at its cell.
pub destroy_correct :
    {size : ℕ} (s : Store) (v : IsCounted size s) (i p m n : ℕ)
    → s.sp_data i ≡ some p
    → s.sp_metadata i ≡ some m
    → s.refcnt m ≡ some n
    → Returns
        (λ t.
          IsCounted size t
          × (t.alive p ≡ not (refs size s.sp_metadata m == 1))
          × (refs size t.sp_metadata m + 1 ≡ refs size s.sp_metadata m))
        (destroy s i)
unfolding destroy
destroy_correct {size} s v i p m n d e c = rw (decrease-dropped s i p m n d e c) (
    let l = letting_go s v i p m n d e c in
    (weak-IsCounted size (dropped s i p m n) _ _ l.0, l.1, l.2))

-- The copy construction of a pointer from one with count `n` keeps the counts right and gives two
-- pointers to the value with count `n + 1`.
pub copy_construct_correct :
    {size : ℕ} (s : Store) (v : IsCounted size s) (i j p m n : ℕ)
    → i < size
    → s.sp_data i ≡ none
    → s.sp_data j ≡ some p
    → s.sp_metadata j ≡ some m
    → s.refcnt m ≡ some n
    → Returns
        (λ t.
          IsCounted size t
          × (t.sp_data i ≡ t.sp_data j)
          × (get_refcount t i ≡ ok (n + 1))
          × (refs size t.sp_metadata m ≡ n + 1))
        (copy_construct s i j)
unfolding copy_construct get_refcount
copy_construct_correct {size} s v i j p m n b u d e c =
    rw (attach-ok (record s { weak_ptr_set = update s.weak_ptr_set i [] }) i j p m n d e c) (
      weak-IsCounted size _ (update s.weak_ptr_set i []) s.wp_shared
          (attach-IsCounted s v i j p m n b (ground (arith, v.paired i)) d e c),
      ground arith,
      ground arith,
      ground (arith, v.counted m n c, v.paired i, refs-update size s.sp_metadata i (some m) m b),
    )

attached :
    {size : ℕ} (s : Store) (v : IsCounted size s) (i j p m : ℕ)
    → i < size
    → i ≢ j
    → s.sp_data i ≡ none
    → s.sp_data j ≡ some p
    → s.sp_metadata j ≡ some m
    → Returns
        (λ t.
          IsCounted size t × (t.sp_data i ≡ some p) × (t.sp_data j ≡ some p) × (t.alive ≡ s.alive))
        (attach s i j)
attached {size} s v i j p m b a u d e = elim (Option-cases (s.refcnt m)) [
  | inl c ↦ absurd (ground (arith, v.backed j m))
  | inr (n, c) ↦ rw (attach-ok s i j p m n d e c) (
    attach-IsCounted s v i j p m n b (ground (arith, v.paired i)) d e c,
    ground arith,
    ground arith,
    refl,
  )
]

-- The copy assignment between two different shared pointers, both not null, keeps the counts right,
-- leaves both with the value of the right one, and deletes the value of the left one exactly if this
-- was the only shared pointer of it.
pub copy_assign_correct :
    {size : ℕ} (s : Store) (v : IsCounted size s) (i j p m n q k : ℕ)
    → i ≢ j
    → s.sp_data i ≡ some p
    → s.sp_metadata i ≡ some m
    → s.refcnt m ≡ some n
    → s.sp_data j ≡ some q
    → s.sp_metadata j ≡ some k
    → Returns
        (λ t.
          IsCounted size t
          × (t.sp_data i ≡ some q)
          × (t.sp_data j ≡ some q)
          × (t.alive p ≡ not (refs size s.sp_metadata m == 1)))
        (copy_assign s i j)
unfolding copy_assign decrease_count
copy_assign_correct {size} s v i j p m n q k a d e h d' e' = rw (decrease-dropped s i p m n d e h) (
    rw (sym (attach-unset (decrease_count s i p m n) i j a)) (
      Returns-map _ _ (attach (dropped s i p m n) i j)
        (attached (dropped s i p m n) l.0 i j q k (v.bounded i m e) a (ground arith) (ground arith)
          (ground arith))
        (λ t r. (r.0, r.1, r.2, rw r.3 l.1))))
  where
    l :
        IsCounted size (dropped s i p m n)
        × ((dropped s i p m n).alive p ≡ not (refs size s.sp_metadata m == 1))
        × (refs size (dropped s i p m n).sp_metadata m + 1 ≡ refs size s.sp_metadata m)
    l = letting_go s v i p m n d e h

-- The move construction keeps the counts right, gives the new pointer the value and the count of the
-- old one, and leaves that null.
pub move_construct_correct :
    {size : ℕ} (s : Store) (v : IsCounted size s) (i j : ℕ)
    → i ≢ j
    → i < size
    → s.sp_data i ≡ none
    → IsCounted size (move_construct s i j)
      × ((move_construct s i j).sp_data i ≡ s.sp_data j)
      × (get_refcount (move_construct s i j) i ≡ get_refcount s j)
      × (get_refcount (move_construct s i j) j ≡ ok 0)
unfolding move_construct take_over get_refcount
move_construct_correct {size} s v i j d b u = (
  weak-IsCounted size _ (update s.weak_ptr_set i []) s.wp_shared (move-IsCounted s v i j d b u),
  ground arith,
  ground arith,
  ground arith,
)
