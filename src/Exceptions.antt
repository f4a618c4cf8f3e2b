-- ===== src/Exceptions.antt =====
-- exception.cc: what is thrown, which handler catches it, and what is printed.
pub mod Dispatch
mod Tests
use mod_cpp.Common.{Bool, true, false, List, [], ◌∷◌, ◌++◌, if◌then◌else◌}
use Prim.Native.String.{String}

-- The class of an exception object; `foreign` stands for any that is not a `std::runtime_error`.
pub data Class : Type 0 where
  runtime_error custom_exception base_exception derived_exception foreign : Class

-- `is_a c d` says that `c` is `d` or derives from it.
abbrev pub is_a : Class → Class → Bool
is_a runtime_error runtime_error = true
is_a runtime_error d = false
is_a custom_exception custom_exception = true
is_a custom_exception runtime_error = true
is_a custom_exception d = false
is_a base_exception base_exception = true
is_a base_exception runtime_error = true
is_a base_exception d = false
is_a derived_exception derived_exception = true
is_a derived_exception base_exception = true
is_a derived_exception runtime_error = true
is_a derived_exception d = false
is_a foreign foreign = true
is_a foreign d = false

pub record Thrown : Type 0 where
  pub class_of : Class
  pub what : String

-- A call returns, an exception leaves it, or it calls `std::terminate`; each with what was printed.
pub data Run : Type 0 where
  returns terminates : List String → Run
  leaves : Thrown → List String → Run

-- The declaration of a handler: a class by reference, or `...`.
pub data Catch : Type 0 where
  by_class : Class → Catch
  catch_all : Catch

abbrev pub catches : Catch → Class → Bool
catches (by_class d) c = is_a c d
catches catch_all c = true

pub record Handler : Type 0 where
  pub declares : Catch
  pub body : Thrown → Run

-- The first handler that catches the class runs; where none does, the exception leaves the block.
unfoldable pub handle : List Handler → Thrown → Run
handle [] e = leaves e []
handle (h ∷ hs) e =
    let rest = handle hs e in if catches h.declares e.class_of then h.body e else rest

abbrev pub prefixed : List String → Run → Run
prefixed out (returns more) = returns (out ++ more)
prefixed out (terminates more) = terminates (out ++ more)
prefixed out (leaves e more) = leaves e (out ++ more)

-- `try { m } catch ...`
unfoldable pub try_catch : Run → List Handler → Run
unfolding handle
try_catch (returns out) hs = returns out
try_catch (terminates out) hs = terminates out
try_catch (leaves e out) hs = prefixed out (handle hs e)

-- `here` is the text that `f4` makes of its place in the source.
abbrev pub f4 : String → Run
f4 here = leaves (record { class_of = custom_exception; what = here }) []

abbrev pub f1 : String → Run
f1 here = f4 here

unfoldable pub basic_usage : String → Run
unfolding try_catch
basic_usage here = try_catch (f1 here) (
    record { declares = by_class runtime_error; body = λ err. returns (err.what ∷ []) }
    ∷ record { declares = catch_all; body = λ err. terminates ("unable to handle exception" ∷ []) }
    ∷ [])

-- `throw;` throws the exception that is being handled.
unfoldable pub exception_handler : Thrown → Run
unfolding try_catch
exception_handler current = try_catch (leaves current []) (
    record { declares = by_class custom_exception; body = λ err. returns ("custom_exception" ∷ []) }
    ∷ record { declares = by_class runtime_error; body = λ err. returns ("runtime_error" ∷ []) }
    ∷ [])

unfoldable pub exception_handler_example : String → Run
unfolding try_catch exception_handler
exception_handler_example here =
    try_catch (f1 here) (record { declares = catch_all; body = exception_handler } ∷ [])

-- An object whose class overrides `raise` or inherits it
pub data Raiser : Type 0 where
  base_object derived_object : String → Raiser

-- The override that the class of the object has: `throw *this` copies the object with the class that the
-- method is declared in.
abbrev pub raise : Raiser → Run
raise (base_object str) = leaves (record { class_of = base_exception; what = str }) []
raise (derived_object str) = leaves (record { class_of = derived_exception; what = str }) []

unfoldable pub report : Run → Run
unfolding try_catch
report m = try_catch m (
    record {
      declares = by_class derived_exception;
      body = λ err. returns ("deirived exception" ∷ []);
    }
    ∷ record { declares = by_class base_exception; body = λ err. returns ("base exception" ∷ []) }
    ∷ [])

unfoldable pub throw_exception_polymorphically : Run
unfolding report
throw_exception_polymorphically = report (raise (derived_object "derived exception"))
