-- ===== src/Terminal/Arguments.antt =====
-- MakeArgVector of kernel/terminal.cpp: the arguments of a program, as strings in a buffer of bytes. The
-- buffer is memory without bounds, as in C++. `isspace` of the C library is an argument.
mod Ends
mod Tests
use mikan_os.Prelude.{
  ℕ, zero, suc, ◌+◌, List, [], ◌∷◌, ◌++◌, Bool, true, false, ◌||◌, Option, none, some, leb, ◌==◌,
  if◌then◌else◌, length,
}
use mikan_os.Error.{Code, failed}

-- `argv`, as offsets in the buffer, `argbuf` and `argbuf_index`; `argc` is the length of `argv`.
pub record ArgVector : Type 0 where
  pub argv : List ℕ
  pub argbuf : ℕ → ℕ
  pub argbuf_index : ℕ

-- `strcpy` to an offset of the buffer.
unfoldable pub copy_string : (ℕ → ℕ) → ℕ → List ℕ → ℕ → ℕ
copy_string argbuf at [] i = if i == at then 0 else argbuf i
copy_string argbuf at (c ∷ cs) i = if i == at then c else copy_string argbuf (at + 1) cs i

-- The lambda `push_to_argv`.
unfoldable pub push_to_argv : (argv_len argbuf_len : ℕ) → ArgVector → List ℕ → Code × ArgVector
push_to_argv argv_len argbuf_len v s =
    if leb argv_len (length v.argv) || leb argbuf_len v.argbuf_index then (Code.full, v) else (
      Code.success,
      record {
        argv = v.argv ++ v.argbuf_index ∷ [];
        argbuf = copy_string v.argbuf v.argbuf_index s;
        argbuf_index = v.argbuf_index + length s + 1;
      },
    )

-- The loop over spaces, and the loop over the characters of an argument.
unfoldable pub skip_spaces : (ℕ → Bool) → List ℕ → List ℕ
skip_spaces isspace [] = []
skip_spaces isspace (c ∷ cs) =
    let rest = skip_spaces isspace cs in if isspace c then rest else c ∷ cs

unfoldable pub take_argument : (ℕ → Bool) → List ℕ → List ℕ × List ℕ
take_argument isspace [] = ([], [])
take_argument isspace (c ∷ cs) =
    let (arg, rest) = take_argument isspace cs in
    if isspace c then ([], c ∷ cs) else (c ∷ arg, rest)

-- The loop of `MakeArgVector`. Every round but the last takes a character at least, so that the length of
-- the text and one more are enough rounds; `none` means that they ran out.
unfoldable pub push_arguments :
    (ℕ → Bool) → ℕ → (argv_len argbuf_len : ℕ) → ArgVector → List ℕ → Option (Code × ArgVector)
push_arguments isspace zero argv_len argbuf_len v p = none
push_arguments isspace (suc n) argv_len argbuf_len v p = elim (skip_spaces isspace p) [
  | [] ↦ some (Code.success, v)
  | c ∷ cs ↦
      let (arg, rest) = take_argument isspace (c ∷ cs) in
      let (code, v') = push_to_argv argv_len argbuf_len v arg in
      let next = elim rest as (λ x. Option (Code × ArgVector)) [
        | [] ↦ some (Code.success, v')
        | d ∷ ds ↦ push_arguments isspace n argv_len argbuf_len v' ds
      ] in
      if failed code then some (code, v') else next
]

-- `MakeArgVector`.
unfoldable pub make_arg_vector :
    (ℕ → Bool)
    → List ℕ
    → Option (List ℕ)
    → (argv_len argbuf_len : ℕ) → (ℕ → ℕ)
    → Option (Code × ArgVector)
make_arg_vector isspace command first_arg argv_len argbuf_len argbuf =
    let start : ArgVector = record { argv = []; argbuf = argbuf; argbuf_index = 0 } in
    let (code, v) = push_to_argv argv_len argbuf_len start command in
    let rest = elim first_arg as (λ x. Option (Code × ArgVector)) [
      | none ↦ some (Code.success, v)
      | some p ↦ push_arguments isspace (length p + 1) argv_len argbuf_len v p
    ] in
    if failed code then some (code, v) else rest
