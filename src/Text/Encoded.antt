-- ===== src/Text/Encoded.antt =====
-- What WriteString does with a text in UTF-8, and with one that is not.
use mikan_os.Prelude.{
  ℕ, zero, suc, ◌+◌, ◌*◌, ◌^◌, ◌<◌, ◌≡◌, refl, ◌∙◌, ap, sym, subst, List, [], ◌∷◌, ◌++◌, false,
  none, some, ◌==◌, length, arith, ==_no,
}
use mathlib.Core.List.{append_assoc}
use mikan_os.Text.{count_utf8_size, convert_utf8_to_32, columns, prepend, write_string}
use mikan_os.Text.Decode.{encode, Begins, convert-encode}

-- Characters that a text can have.
unfoldable pub AllValid : List ℕ → Type 0
AllValid [] = Unit
AllValid (c ∷ cs) = (0 < c) × (c < 2 ^ 21) × AllValid cs

unfoldable pub encode_all : List ℕ → List ℕ
encode_all [] = []
encode_all (c ∷ cs) = encode c ++ encode_all cs

-- The calls of `WriteUnicode` for the characters, from a column on.
unfoldable pub calls : List ℕ → ℕ → List (ℕ × ℕ)
calls [] x = []
calls (c ∷ cs) x = (8 * x, c) ∷ calls cs (x + columns c)

pub Begins-left : (s : ℕ → ℕ) (bs cs : List ℕ) → Begins s (bs ++ cs) → Begins s bs
unfolding Begins
Begins-left s [] cs v = tt
Begins-left s (b ∷ bs) cs (e, v) = (e, Begins-left (λ j. s (suc j)) bs cs v)

pub Begins-same : (s t : ℕ → ℕ) (bs : List ℕ) → ((j : ℕ) → s j ≡ t j) → Begins s bs → Begins t bs
unfolding Begins
Begins-same s t [] same v = tt
Begins-same s t (b ∷ bs) same (e, v) =
    (sym (same 0) ∙ e, Begins-same (λ j. s (suc j)) (λ j. t (suc j)) bs (λ j. same (suc j)) v)

pub Begins-right :
    (s : ℕ → ℕ) (bs cs : List ℕ) → Begins s (bs ++ cs) → Begins (λ j. s (length bs + j)) cs
unfolding Begins
Begins-right s [] cs v = Begins-same s (λ j. s (0 + j)) cs (λ j. ap s (omega arith)) v
Begins-right s (b ∷ bs) cs (e, v) =
    Begins-same (λ j. s (suc (length bs + j))) (λ j. s (suc (length bs) + j)) cs
      (λ j. ap s (omega arith)) (Begins-right (λ j. s (suc j)) bs cs v)

pub encode-first : (s : ℕ → ℕ) (c : ℕ) → 0 < c → Begins s (encode c) → 0 < s 0
unfolding Begins
encode-first s c h v = ground arith

-- The round of the loop for one character.
write_string-round :
    (fuel : ℕ) (s : ℕ → ℕ) (x c : ℕ) (rest : List ℕ)
    → 0 < c
    → c < 2 ^ 21
    → Begins s (encode c ++ rest)
    → write_string (suc fuel) s x
      ≡ prepend (8 * x, c) (write_string fuel (λ j. s (length (encode c) + j)) (x + columns c))
unfolding write_string
write_string-round fuel s x c rest positive small v =
    let first = Begins-left s (encode c) rest v in
    rw
      (
        write_string,
        convert-encode s c small first,
        ==_no (s 0) 0 (λ e. omega (arith, encode-first s c positive first)),
      )
      refl

ended : (fuel : ℕ) (s : ℕ → ℕ) (x : ℕ) → s 0 ≡ 0 → write_string (suc fuel) s x ≡ some []
unfolding write_string
ended fuel s x e = ground arith

-- On a text in UTF-8 WriteString ends, after as many rounds as there are characters and one more, and
-- writes each character once, in order, each at the width of those before it.
pub write_string-encoded :
    (cs : List ℕ) (fuel : ℕ) (s : ℕ → ℕ) (x : ℕ)
    → AllValid cs
    → Begins s (encode_all cs ++ (0 ∷ []))
    → length cs < fuel
    → write_string fuel s x ≡ some (calls cs x)
unfolding AllValid encode_all calls Begins
write_string-encoded cs zero s x valid v h = absurd (omega arith)
write_string-encoded [] (suc fuel) s x valid v h = ended fuel s x v.0
write_string-encoded (c ∷ cs) (suc fuel) s x (positive, small, valid) v h =
    let rest = encode_all cs ++ (0 ∷ []) in
    let v' = subst (Begins s) (append_assoc (encode c) (encode_all cs) (0 ∷ [])) v in
    write_string-round fuel s x c rest positive small v'
    ∙ ap (prepend (8 * x, c)) (
        write_string-encoded cs fuel (λ j. s (length (encode c) + j)) (x + columns c) valid
          (Begins-right s (encode c) rest v') (omega arith))

nothing_read :
    (s : ℕ → ℕ) → count_utf8_size (s 0) ≡ 0 → (convert_utf8_to_32 s ≡ (0, 0)) × ((s 0 == 0) ≡ false)
unfolding convert_utf8_to_32 count_utf8_size
nothing_read s e = (ground arith, ground arith)

stuck : (fuel : ℕ) (s : ℕ → ℕ) (x : ℕ) → count_utf8_size (s 0) ≡ 0 → write_string fuel s x ≡ none
unfolding write_string
stuck zero s x e = refl
stuck (suc fuel) s x e =
    let (none_read, some_byte) = nothing_read s e in
    rw (write_string, none_read, some_byte)
      (ap (prepend (8 * x, 0)) (stuck fuel (λ j. s (0 + j)) (x + 1) e))

-- Where a byte that starts no character follows the characters, as 0x80 does, the loop of WriteString
-- never ends.
pub write_string-invalid :
    (cs : List ℕ) (b fuel : ℕ) (s : ℕ → ℕ) (x : ℕ)
    → AllValid cs
    → count_utf8_size b ≡ 0
    → Begins s (encode_all cs ++ (b ∷ []))
    → write_string fuel s x ≡ none
unfolding AllValid encode_all Begins write_string
write_string-invalid cs b zero s x valid invalid v = refl
write_string-invalid [] b (suc fuel) s x valid invalid v =
    stuck (suc fuel) s x (ap count_utf8_size v.0 ∙ invalid)
write_string-invalid (c ∷ cs) b (suc fuel) s x (positive, small, valid) invalid v =
    let rest = encode_all cs ++ (b ∷ []) in
    let v' = subst (Begins s) (append_assoc (encode c) (encode_all cs) (b ∷ [])) v in
    write_string-round fuel s x c rest positive small v'
    ∙ ap (prepend (8 * x, c)) (
        write_string-invalid cs b fuel (λ j. s (length (encode c) + j)) (x + columns c) valid
          invalid (Begins-right s (encode c) rest v'))
