-- ===== src/Terminal/Arguments/Ends.antt =====
-- MakeArgVector ends.
use mikan_os.Prelude.{
  ℕ, zero, suc, ◌+◌, ◌≤◌, ◌<◌, List, [], ◌∷◌, Bool, Option, none, some, if◌then◌else◌, if_both,
  length, arith,
}
use mikan_os.Error.{Code, failed}
use mikan_os.Terminal.Arguments.{
  ArgVector, push_to_argv, skip_spaces, take_argument, push_arguments, make_arg_vector,
}

length-skip_spaces : (isspace : ℕ → Bool) (p : List ℕ) → length (skip_spaces isspace p) ≤ length p
unfolding skip_spaces
length-skip_spaces isspace [] = omega arith
length-skip_spaces isspace (c ∷ cs) = ground (arith, length-skip_spaces isspace cs)

length-take_argument :
    (isspace : ℕ → Bool) (p : List ℕ) → length (take_argument isspace p).1 ≤ length p
unfolding take_argument
length-take_argument isspace [] = omega arith
length-take_argument isspace (c ∷ cs) = ground (arith, length-take_argument isspace cs)

-- Whether there is a result.
abbrev HasEnded : Option (Code × ArgVector) → Type 0
HasEnded none = ⊥
HasEnded (some r) = Unit

push_arguments-HasEnded :
    (isspace : ℕ → Bool) (n argv_len argbuf_len : ℕ) (v : ArgVector) (p : List ℕ)
    → length p < n
    → HasEnded (push_arguments isspace n argv_len argbuf_len v p)
unfolding push_arguments
push_arguments-HasEnded isspace zero argv_len argbuf_len v p h = absurd (omega arith)
push_arguments-HasEnded isspace (suc n) argv_len argbuf_len v p h =
    go
      (λ v' ds k. push_arguments-HasEnded isspace n argv_len argbuf_len v' ds (omega (arith, h, k)))
      (skip_spaces isspace p) (length-skip_spaces isspace p)
  where
    rest_ends :
        ((v' : ArgVector) (ds : List ℕ)
          → length ds < length p
          → HasEnded (push_arguments isspace n argv_len argbuf_len v' ds))
        → (rest : List ℕ) (v' : ArgVector) → length rest ≤ length p
        → HasEnded (elim rest as (λ x. Option (Code × ArgVector)) [
          | [] ↦ some (Code.success, v')
          | d ∷ ds ↦ push_arguments isspace n argv_len argbuf_len v' ds
        ])
    rest_ends ends [] v' k = tt
    rest_ends ends (d ∷ ds) v' k = ends v' ds (omega (arith, k))

    go :
        ((v' : ArgVector) (ds : List ℕ)
          → length ds < length p
          → HasEnded (push_arguments isspace n argv_len argbuf_len v' ds))
        → (q : List ℕ) → length q ≤ length p
        → HasEnded (elim q as (λ x. Option (Code × ArgVector)) [
          | [] ↦ some (Code.success, v)
          | c ∷ cs ↦
              let (arg, rest) = take_argument isspace (c ∷ cs) in
              let (code, v') = push_to_argv argv_len argbuf_len v arg in
              let next = elim rest as (λ x. Option (Code × ArgVector)) [
                | [] ↦ some (Code.success, v')
                | d ∷ ds ↦ push_arguments isspace n argv_len argbuf_len v' ds
              ] in
              if failed code then some (code, v') else next
        ])
    go ends [] k = tt
    go ends (c ∷ cs) k =
        let (arg, rest) = take_argument isspace (c ∷ cs) in
        let (code, v') = push_to_argv argv_len argbuf_len v arg in
        if_both HasEnded (failed code) tt
          (rest_ends ends rest v' (omega (arith, k, length-take_argument isspace (c ∷ cs))))

-- For any command and any text MakeArgVector ends.
make_arg_vector-HasEnded :
    (isspace : ℕ → Bool) (command : List ℕ) (first_arg : Option (List ℕ)) (argv_len argbuf_len : ℕ)
    (argbuf : ℕ → ℕ)
    → HasEnded (make_arg_vector isspace command first_arg argv_len argbuf_len argbuf)
unfolding make_arg_vector
make_arg_vector-HasEnded isspace command none argv_len argbuf_len argbuf =
    let start : ArgVector = record { argv = []; argbuf = argbuf; argbuf_index = 0 } in
    if_both HasEnded (failed (push_to_argv argv_len argbuf_len start command).0) tt tt
make_arg_vector-HasEnded isspace command (some p) argv_len argbuf_len argbuf =
    let start : ArgVector = record { argv = []; argbuf = argbuf; argbuf_index = 0 } in
    let (code, v) = push_to_argv argv_len argbuf_len start command in
    if_both HasEnded (failed code) tt
      (push_arguments-HasEnded isspace (length p + 1) argv_len argbuf_len v p (omega arith))
