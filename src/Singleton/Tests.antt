-- ===== src/Singleton/Tests.antt =====
-- The singletons at concrete values.
use simple_messenger.Singleton.Life.{
  spec_call, absent, alive, Call, inits, destroys, uses, view, run_calls, spec_run,
  run_calls_refines,
}
use simple_messenger.Prelude.{ℕ, ◌≡◌, refl, none, some, List, [], ◌∷◌}
use mathlib.Core.Option
use simple_messenger.Singleton.{null, get_static_instance}

-- Two instances are made, one is deleted; then the pointer dangles.
abbrev calls : List (Call ℕ)
calls = inits 3 ∷ uses ∷ inits 4 ∷ uses ∷ destroys ∷ []

run_calls_refines_example : Option.map view (run_calls null calls) ≡ spec_run (absent, 0) calls
unfolding null
run_calls_refines_example = run_calls_refines null calls

use_after_destroy : spec_run {T = ℕ} (alive 3, 1) (destroys ∷ uses ∷ []) ≡ none
unfolding spec_run Option.bind spec_call
use_after_destroy = refl

static_once : get_static_instance {T = ℕ} 4 (get_static_instance 3 none).1 ≡ (3, some 3)
unfolding get_static_instance
static_once = refl
