-- ===== src/Exceptions/Dispatch.antt =====
-- Which handler runs.
use mod_cpp.Common.{◌≡◌, refl, Bool-cases, inl, inr, true, false, List, [], ◌∷◌, ◌++◌, arith}
use mod_cpp.Exceptions.{
  Class, runtime_error, custom_exception, is_a, Thrown, Run, leaves, by_class, catches, Handler,
  handle, try_catch, exception_handler,
}

pub is_a_trans : (c d e : Class) → is_a c d ≡ true → is_a d e ≡ true → is_a c e ≡ true
is_a_trans c d e h k = ground arith

-- No handler of the list catches the class.
abbrev pub NoneCatches : List Handler → Class → Type 0
NoneCatches [] c = true ≡ true
NoneCatches (h ∷ hs) c = (catches h.declares c ≡ false) × NoneCatches hs c

-- The handlers in front that do not catch the class are passed over.
pub handle-append :
    (before : List Handler) (hs : List Handler) (e : Thrown)
    → NoneCatches before e.class_of
    → handle (before ++ hs) e ≡ handle hs e
unfolding handle
handle-append [] hs e none_catches = refl
handle-append (h ∷ before) hs e (no_catch, none_catches) =
    rw no_catch (handle-append before hs e none_catches)

-- A handler of a class never runs behind one of a class that it derives from.
pub handle_shadowed :
    (c d : Class) (first second second' : Thrown → Run) (hs : List Handler) (e : Thrown)
    → is_a c d ≡ true
    → handle
        (record { declares = by_class d; body = first }
          ∷ record { declares = by_class c; body = second }
          ∷ hs)
        e
      ≡ handle
          (record { declares = by_class d; body = first }
            ∷ record { declares = by_class c; body = second' }
            ∷ hs)
          e
unfolding handle
handle_shadowed c d first second second' hs e h = elim (Bool-cases (is_a e.class_of d)) [
  | inl caught ↦ rw caught refl
  | inr passed ↦ elim (Bool-cases (is_a e.class_of c)) [
    | inl derived ↦ cc (passed, is_a_trans e.class_of c d derived h)
    | inr other ↦ rw other refl
  ]
]

-- An exception that no `runtime_error` is leaves `exception_handler`, and nothing is printed.
pub exception_handler_leaves :
    (e : Thrown) → is_a e.class_of runtime_error ≡ false → exception_handler e ≡ leaves e []
unfolding exception_handler try_catch handle
exception_handler_leaves e h = elim (Bool-cases (is_a e.class_of custom_exception)) [
  | inl custom ↦ cc (h, is_a_trans e.class_of custom_exception runtime_error custom refl)
  | inr other ↦ rw other (rw h refl)
]
