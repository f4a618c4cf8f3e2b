-- ===== src/Exceptions/Tests.antt =====
-- The routine.
use mod_cpp.Common.{◌≡◌, refl, [], ◌∷◌}
use Prim.Native.String.{String}
use mod_cpp.Exceptions.{
  Run, basic_usage, exception_handler_example, throw_exception_polymorphically, returns, prefixed,
  leaves, terminates,
}

abbrev and_then : Run → Run → Run
and_then (returns out) m = prefixed out m
and_then (terminates out) m = terminates out
and_then (leaves e out) m = leaves e out

abbrev exception_routine : String → Run
unfolding basic_usage exception_handler_example throw_exception_polymorphically
exception_routine here =
    and_then (basic_usage here)
      (and_then (exception_handler_example here) throw_exception_polymorphically)

exception_routine_prints :
    exception_routine "f4:17" ≡ returns ("f4:17" ∷ "custom_exception" ∷ "deirived exception" ∷ [])
unfolding basic_usage exception_handler_example throw_exception_polymorphically
exception_routine_prints = refl
