-- ===== src/ObjectOrientation/Tests.antt =====
-- The examples of the file.
use mod_cpp.Common.{ℕ, ◌≡◌, refl, [], ◌∷◌}
use mod_cpp.Common.Int.{pos, negsuc}
use mod_cpp.Common.Outcome.{ok, assert_failed}
use mod_cpp.ObjectOrientation.{
  Store, construct, move_construct, get_data_rvalue, reference_qualifier, subscript, construct_b,
  assign, assign_b, static_constructor, drain_loop, init_static_member,
}

abbrev first : Store
first = record { arr = λ i k. 0; fields = λ i. (0, 0, 0); out = [] }

-- The two lines that are printed are the fields of object 1 before and after the assignment.
abbrev derived_assignment_operator : Store → (ℕ × ℕ × ℕ) × (ℕ × ℕ × ℕ)
unfolding construct_b assign_b
derived_assignment_operator s =
    let t = construct_b (construct_b s 1 (λ k. 0) (1, 2, 3)) 2 (λ k. 0) (2, 3, 4) in
    (t.fields 1, (assign_b t 1 2).fields 1)

derived_assignment_operator_prints : derived_assignment_operator first ≡ ((1, 2, 3), (2, 3, 4))
unfolding construct_b assign_b construct assign
derived_assignment_operator_prints = refl

reference_qualifier_prints :
    (reference_qualifier first 1 2 (λ k. 5)).out ≡ "default constructor" ∷ "move constructor" ∷ []
unfolding reference_qualifier construct get_data_rvalue move_construct
reference_qualifier_prints = refl

init_static_member_prints :
    init_static_member 10 static_constructor ≡ ok (9 ∷ 8 ∷ 7 ∷ 6 ∷ 5 ∷ 4 ∷ 3 ∷ 2 ∷ 1 ∷ 0 ∷ [])
unfolding init_static_member drain_loop
init_static_member_prints = refl

negative_index : subscript (negsuc 0) ≡ assert_failed
unfolding subscript
negative_index = refl

last_index : subscript (pos 100099) ≡ ok 100099
unfolding subscript
last_index = refl
