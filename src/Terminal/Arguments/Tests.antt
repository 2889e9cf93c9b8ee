-- ===== src/Terminal/Arguments/Tests.antt =====
-- A command with two arguments.
use mikan_os.Prelude.{ℕ, ◌≡◌, refl, Bool, List, [], ◌∷◌, some, none, Option, ◌==◌}
use mikan_os.Error.{Code}
use mikan_os.Terminal.Arguments.{
  ArgVector, push_to_argv, skip_spaces, take_argument, push_arguments, make_arg_vector,
}

abbrev is_blank : ℕ → Bool
is_blank c = c == 32

-- `a` with `  b cd `.
abbrev three_arguments : ℕ → Option (Code × ArgVector)
three_arguments argv_len =
    make_arg_vector is_blank (97 ∷ []) (some (32 ∷ 32 ∷ 98 ∷ 32 ∷ 99 ∷ 100 ∷ 32 ∷ [])) argv_len 100
      (λ i. 0)

abbrev offsets : Option (Code × ArgVector) → List ℕ
offsets none = []
offsets (some (code, v)) = v.argv

abbrev code_of : Option (Code × ArgVector) → Option Code
code_of none = none
code_of (some (code, v)) = some code

all_pushed : offsets (three_arguments 8) ≡ 0 ∷ 2 ∷ 4 ∷ []
unfolding make_arg_vector push_arguments push_to_argv skip_spaces take_argument
all_pushed = refl

too_many : code_of (three_arguments 2) ≡ some Code.full
unfolding make_arg_vector push_arguments push_to_argv skip_spaces take_argument
too_many = refl
