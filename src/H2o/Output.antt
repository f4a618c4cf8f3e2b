-- ===== src/H2o/Output.antt =====
-- What is printed.
use mod_cpp.Common.{
  ℕ, suc, ◌≤◌, ◌≡◌, refl, ap, true, Bool-cases, inl, inr, List, [], ◌∷◌, ◌++◌, arith,
}
use mod_cpp.H2o.{
  Atom, hydrogen, oxygen, Shared, System, kind, may_print, print, wait_and_print, turn,
  check_fully_print, Step, take_turn, resume, spurious, Reach, begin, later,
}

abbrev pub hydrogens : List Atom → ℕ
hydrogens [] = 0
hydrogens (hydrogen ∷ l) = suc (hydrogens l)
hydrogens (oxygen ∷ l) = hydrogens l

abbrev pub oxygens : List Atom → ℕ
oxygens [] = 0
oxygens (hydrogen ∷ l) = oxygens l
oxygens (oxygen ∷ l) = suc (oxygens l)

-- Groups of three, each of two H and one O.
pub data AreMolecules : List Atom → Type 0 where
  none_yet : AreMolecules []
  molecule :
      (a b c : Atom) {l : List Atom}
      → hydrogens (a ∷ b ∷ c ∷ []) ≡ 2
      → AreMolecules l
      → AreMolecules (a ∷ b ∷ c ∷ l)

-- The output is whole molecules, and then the atoms that the counters count.
pub record IsWater (m : Shared) : Type 0 where
  pub rest : List Atom
  pub finished : List Atom
  pub split : m.out ≡ rest ++ finished
  pub molecules : AreMolecules finished
  pub h_counted : hydrogens rest ≡ m.h_cnt
  pub o_counted : oxygens rest ≡ m.o_cnt
  pub h_bound : m.h_cnt ≤ 2
  pub o_bound : m.o_cnt ≤ 1

-- Two H and one O are a molecule, in any order.
full-molecule :
    (l r : List Atom) → hydrogens l ≡ 2 → oxygens l ≡ 1 → AreMolecules r → AreMolecules (l ++ r)
full-molecule (a ∷ b ∷ c ∷ []) r h o m = molecule a b c h m
full-molecule [] r h o m = absurd (omega arith)
full-molecule (a ∷ []) r h o m = ground arith
full-molecule (a ∷ b ∷ []) r h o m = ground arith
full-molecule (a ∷ b ∷ c ∷ d ∷ l) r h o m = ground arith

print-IsWater : (a : Atom) (m : Shared) → IsWater m → may_print a m ≡ true → IsWater (print a m)
print-IsWater hydrogen m w h = record {
  rest = hydrogen ∷ w.rest;
  finished = w.finished;
  split = ap (◌∷◌ hydrogen) w.split;
  molecules = w.molecules;
  h_counted = omega (arith, w.h_counted);
  o_counted = w.o_counted;
  h_bound = ground arith;
  o_bound = w.o_bound;
}
print-IsWater oxygen m w h = record {
  rest = oxygen ∷ w.rest;
  finished = w.finished;
  split = ap (◌∷◌ oxygen) w.split;
  molecules = w.molecules;
  h_counted = w.h_counted;
  o_counted = omega (arith, w.o_counted);
  h_bound = w.h_bound;
  o_bound = ground arith;
}

wait-IsWater : (a : Atom) (m : Shared) → IsWater m → IsWater (wait_and_print a m).0
unfolding wait_and_print
wait-IsWater a m w = elim (Bool-cases (may_print a m)) [
  | inl room ↦ rw room (print-IsWater a m w room)
  | inr full ↦ rw full w
]

reset-IsWater :
    (m : Shared)
    → IsWater m
    → check_fully_print m ≡ true
    → IsWater (record m { h_cnt = 0; o_cnt = 0 })
reset-IsWater m w full = record {
  rest = [];
  finished = w.rest ++ w.finished;
  split = w.split;
  molecules =
      full-molecule w.rest w.finished (ground (arith, w.h_counted)) (ground (arith, w.o_counted))
        w.molecules;
  h_counted = refl;
  o_counted = refl;
  h_bound = omega arith;
  o_bound = omega arith;
}

turn-IsWater :
    (thread_nr : ℕ) (s : System) (i : ℕ) → IsWater s.shared → IsWater (turn thread_nr s i).shared
unfolding turn
turn-IsWater thread_nr s i w = elim (Bool-cases (check_fully_print s.shared)) [
  | inl full ↦ rw full (reset-IsWater s.shared w full)
  | inr more ↦ rw more (wait-IsWater (kind thread_nr i) s.shared w)
]

module _ {thread_nr : ℕ} where
  Step-IsWater : {s t : System} → Step thread_nr s t → IsWater s.shared → IsWater t.shared
  Step-IsWater {s} (take_turn i lt e) w = turn-IsWater thread_nr s i w
  Step-IsWater {s} (resume i lt e) w = wait-IsWater (kind thread_nr i) s.shared w
  Step-IsWater (spurious i lt e) w = w

  -- Whatever the order in which the threads run, at every moment the output is whole molecules of two
  -- H and one O, then the atoms that `h_cnt` and `o_cnt` count, with `h_cnt` at most 2 and `o_cnt` at
  -- most 1.
  pub output-IsWater : {s : System} → Reach thread_nr s → IsWater s.shared
  output-IsWater begin = record {
    rest = [];
    finished = [];
    split = refl;
    molecules = none_yet;
    h_counted = refl;
    o_counted = refl;
    h_bound = omega arith;
    o_bound = omega arith;
  }
  output-IsWater (later r st) = Step-IsWater st (output-IsWater r)
