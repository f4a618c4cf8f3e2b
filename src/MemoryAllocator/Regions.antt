-- ===== src/MemoryAllocator/Regions.antt =====
-- `std::set<MemoryRegion>`: a list in the order of the tuples (len, left, right).
use mod_cpp.Common.{
  ℕ, ◌≤◌, ◌<◌, ◌≡◌, refl, Bool, true, false, ◌&&◌, ltb, ◌==◌, if◌then◌else◌, Option, none, some,
  List, [], ◌∷◌, arith,
}

pub record MemoryRegion : Type 0 where
  pub len : ℕ
  pub left : ℕ
  pub right : ℕ

abbrev pub same : MemoryRegion → MemoryRegion → Bool
same a b = (a.len == b.len) && (a.left == b.left) && (a.right == b.right)

-- `operator<` of tuples
unfoldable pub lt_region : MemoryRegion → MemoryRegion → Bool
lt_region a b =
    if ltb a.len b.len
    then true
    else if ltb b.len a.len
    then false
    else if ltb a.left b.left
    then true
    else if ltb b.left a.left
    then false
    else ltb a.right b.right

unfoldable pub contains : MemoryRegion → List MemoryRegion → Bool
contains m [] = false
contains m (a ∷ s) = if same m a then true else contains m s

unfoldable pub insert : MemoryRegion → List MemoryRegion → List MemoryRegion
unfolding lt_region
insert m [] = m ∷ []
insert m (a ∷ s) = if same m a then a ∷ s else if lt_region m a then m ∷ a ∷ s else a ∷ insert m s

unfoldable pub erase : MemoryRegion → List MemoryRegion → List MemoryRegion
erase m [] = []
erase m (a ∷ s) = if same m a then erase m s else a ∷ erase m s

-- The first element that is not less than `m`; `none` for `end()`.
unfoldable pub lower_bound : MemoryRegion → List MemoryRegion → Option MemoryRegion
unfolding lt_region
lower_bound m [] = none
lower_bound m (a ∷ s) = if lt_region a m then lower_bound m s else some a

-- `lower_bound({n, 0, 0})`
abbrev pub at_least : ℕ → MemoryRegion
at_least n = record { len = n; left = 0; right = 0 }

pub contains-insert :
    (m a : MemoryRegion) (s : List MemoryRegion)
    → contains m (insert a s) ≡ (if same m a then true else contains m s)
unfolding contains insert
contains-insert m a [] = refl
contains-insert m a (b ∷ s) = ground (arith, contains-insert m a s)

pub contains-erase :
    (m a : MemoryRegion) (s : List MemoryRegion)
    → contains m (erase a s) ≡ (if same m a then false else contains m s)
unfolding contains erase
contains-erase m a [] = ground arith
contains-erase m a (b ∷ s) = ground (arith, contains-erase m a s)

pub contains-lower_bound :
    (n : ℕ) (s : List MemoryRegion) (m : MemoryRegion)
    → lower_bound (at_least n) s ≡ some m
    → (contains m s ≡ true) × (n ≤ m.len)
unfolding lower_bound contains
contains-lower_bound n [] m h = ground arith
contains-lower_bound n (a ∷ s) m h = ground (arith, contains-lower_bound n s m)

pub lower_bound-none :
    (n : ℕ) (s : List MemoryRegion) (m : MemoryRegion)
    → lower_bound (at_least n) s ≡ none
    → contains m s ≡ true
    → m.len < n
unfolding lower_bound contains
lower_bound-none n [] m h c = ground arith
lower_bound-none n (a ∷ s) m h c = ground (arith, lower_bound-none n s m)

-- In the order of their lengths.
abbrev pub AllLonger : ℕ → List MemoryRegion → Type 0
AllLonger n [] = Unit
AllLonger n (a ∷ s) = (n ≤ a.len) × AllLonger n s

abbrev pub IsOrdered : List MemoryRegion → Type 0
IsOrdered [] = Unit
IsOrdered (a ∷ s) = AllLonger a.len s × IsOrdered s

AllLonger-trans : (n k : ℕ) (s : List MemoryRegion) → n ≤ k → AllLonger k s → AllLonger n s
AllLonger-trans n k [] h l = tt
AllLonger-trans n k (a ∷ s) h l = (omega arith, AllLonger-trans n k s h l.1)

AllLonger-insert :
    (n : ℕ) (m : MemoryRegion) (s : List MemoryRegion)
    → n ≤ m.len
    → AllLonger n s
    → AllLonger n (insert m s)
unfolding insert
AllLonger-insert n m [] h l = (h, tt)
AllLonger-insert n m (a ∷ s) h l = ground (arith, AllLonger-insert n m s)

AllLonger-erase :
    (n : ℕ) (m : MemoryRegion) (s : List MemoryRegion) → AllLonger n s → AllLonger n (erase m s)
unfolding erase
AllLonger-erase n m [] l = tt
AllLonger-erase n m (a ∷ s) l = ground (arith, AllLonger-erase n m s)

pub IsOrdered-insert :
    (m : MemoryRegion) (s : List MemoryRegion) → IsOrdered s → IsOrdered (insert m s)
unfolding insert
IsOrdered-insert m [] o = (tt, tt)
IsOrdered-insert m (a ∷ s) o =
    ground (arith, IsOrdered-insert m s, AllLonger-insert a.len m s, AllLonger-trans m.len a.len s)

pub IsOrdered-erase :
    (m : MemoryRegion) (s : List MemoryRegion) → IsOrdered s → IsOrdered (erase m s)
unfolding erase
IsOrdered-erase m [] o = tt
IsOrdered-erase m (a ∷ s) o = ground (arith, IsOrdered-erase m s, AllLonger-erase a.len m s)

AllLonger-contains :
    (n : ℕ) (s : List MemoryRegion) (m : MemoryRegion)
    → AllLonger n s
    → contains m s ≡ true
    → n ≤ m.len
unfolding contains
AllLonger-contains n [] m l c = ground arith
AllLonger-contains n (a ∷ s) m l c = ground (arith, AllLonger-contains n s m)

-- The region found is a shortest one of those that are long enough.
pub lower_bound_least :
    (n : ℕ) (s : List MemoryRegion) (m k : MemoryRegion)
    → IsOrdered s
    → lower_bound (at_least n) s ≡ some m
    → contains k s ≡ true
    → n ≤ k.len
    → m.len ≤ k.len
unfolding lower_bound contains
lower_bound_least n [] m k o h c l = ground arith
lower_bound_least n (a ∷ s) m k o h c l =
    ground (arith, lower_bound_least n s m k, AllLonger-contains a.len s k)
