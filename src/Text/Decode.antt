-- ===== src/Text/Decode.antt =====
-- ConvertUTF8To32 reads back what an encoder of UTF-8 writes.
use mikan_os.Prelude.{
  subst, ℕ, suc, ◌+◌, ◌*◌, ◌/◌, ◌%◌, ◌^◌, ◌<◌, ◌≤◌, ◌≡◌, ◌∙◌, ap, ap₂, sym, List, [], ◌∷◌, ltb,
  if◌then◌else◌, length, bit_or, arith, inl, inr, Bool-cases,
}
use mikan_os.Text.{count_utf8_size, convert_utf8_to_32, field}
use mikan_os.Text.Masks.{mask15, mask31, mask63, bit_or-fields}

-- The bytes of a character below 2 ^ 21.
abbrev pub encode : ℕ → List ℕ
encode c =
    if ltb c 128
    then c ∷ []
    else if ltb c 2048
    then (192 + c / 64) ∷ (128 + c % 64) ∷ []
    else if ltb c 65536
    then (224 + c / 4096) ∷ (128 + c / 64 % 64) ∷ (128 + c % 64) ∷ []
    else (240 + c / 262144) ∷ (128 + c / 4096 % 64) ∷ (128 + c / 64 % 64) ∷ (128 + c % 64) ∷ []

-- The memory has these bytes first.
unfoldable pub Begins : (ℕ → ℕ) → List ℕ → Type 0
Begins s [] = Unit
Begins s (b ∷ bs) = (s 0 ≡ b) × Begins (λ j. s (suc j)) bs

two : (a b : ℕ) → bit_or (field a 31 6) (field b 63 0) ≡ a % 32 * 64 + b % 64
two a b =
    let high = mask31 a in
    let low = mask63 b in
    rw (high, low)
      (ap (bit_or (a % 32 * 64)) (omega arith) ∙ bit_or-fields 6 (a % 32) (b % 64) (omega arith))

three :
    (a b c : ℕ)
    → bit_or (bit_or (field a 15 12) (field b 63 6)) (field c 63 0)
      ≡ a % 16 * 4096 + b % 64 * 64 + c % 64
three a b c =
    let first = mask15 a in
    let second = mask63 b in
    let last = mask63 c in
    let high : a % 16 * 4096 + b % 64 * 64 ≡ (a % 16 * 64 + b % 64) * 2 ^ 6 = omega arith in
    rw (first, second, last)
      (ap₂ bit_or (bit_or-fields 12 (a % 16) (b % 64 * 64) (omega arith) ∙ high) (omega arith)
        ∙ bit_or-fields 6 (a % 16 * 64 + b % 64) (c % 64) (omega arith)
        ∙ omega arith)

four :
    (a b c d : ℕ)
    → bit_or (bit_or (bit_or (field a 15 18) (field b 63 12)) (field c 63 6)) (field d 63 0)
      ≡ a % 16 * 262144 + b % 64 * 4096 + c % 64 * 64 + d % 64
four a b c d =
    let first = mask15 a in
    let second = mask63 b in
    let third = mask63 c in
    let last = mask63 d in
    let high : a % 16 * 262144 + b % 64 * 4096 ≡ (a % 16 * 64 + b % 64) * 2 ^ 12 = omega arith in
    let front = a % 16 * 4096 + b % 64 * 64 + c % 64 in
    let upper : (a % 16 * 64 + b % 64) * 2 ^ 12 + c % 64 * 64 ≡ front * 2 ^ 6 = omega arith in
    let joined : bit_or (a % 16 * 262144) (b % 64 * 4096) ≡ (a % 16 * 64 + b % 64) * 2 ^ 12 =
      bit_or-fields 18 (a % 16) (b % 64 * 4096) (omega arith) ∙ high in
    rw (first, second, third, last)
      (ap₂ bit_or
          (ap (λ (n : ℕ). bit_or n (c % 64 * 64)) joined
            ∙ bit_or-fields 12 (a % 16 * 64 + b % 64) (c % 64 * 64) (omega arith)
            ∙ upper)
          (omega arith)
        ∙ bit_or-fields 6 front (d % 64) (omega arith)
        ∙ omega arith)

pair : {a b c d : ℕ} → a ≡ c → b ≡ d → ◌≡◌ {A = ℕ × ℕ} (a, b) (c, d)
pair p q = ap₂ (λ (x y : ℕ). (x, y)) p q

decoded-1 : (s : ℕ → ℕ) → s 0 < 128 → convert_utf8_to_32 s ≡ (s 0, 1)
unfolding convert_utf8_to_32 count_utf8_size
decoded-1 s h = ground arith

decoded-2 :
    (s : ℕ → ℕ)
    → 192 ≤ s 0
    → s 0 < 224
    → convert_utf8_to_32 s ≡ (bit_or (field (s 0) 31 6) (field (s 1) 63 0), 2)
unfolding convert_utf8_to_32 count_utf8_size
decoded-2 s l h = ground arith

decoded-3 :
    (s : ℕ → ℕ)
    → 224 ≤ s 0
    → s 0 < 240
    → convert_utf8_to_32 s
      ≡ (bit_or (bit_or (field (s 0) 15 12) (field (s 1) 63 6)) (field (s 2) 63 0), 3)
unfolding convert_utf8_to_32 count_utf8_size
decoded-3 s l h = ground arith

decoded-4 :
    (s : ℕ → ℕ)
    → 240 ≤ s 0
    → s 0 < 248
    → convert_utf8_to_32 s ≡ (
      bit_or
          (bit_or (bit_or (field (s 0) 15 18) (field (s 1) 63 12)) (field (s 2) 63 6))
          (field (s 3) 63 0),
      4,
    )
unfolding convert_utf8_to_32 count_utf8_size
decoded-4 s l h = ground arith

-- For the encoding of a character below 2 ^ 21 ConvertUTF8To32 returns the character and the number
-- of its bytes, whatever follows.
pub convert-encode :
    (s : ℕ → ℕ) (c : ℕ)
    → c < 2 ^ 21
    → Begins s (encode c)
    → convert_utf8_to_32 s ≡ (c, length (encode c))
unfolding Begins
convert-encode s c h v = elim (Bool-cases (ltb c 128)) [
  | inl one ↦
      let e : encode c ≡ c ∷ [] = ground arith in
      let (b0, _) = subst (Begins s) e v in decoded-1 s (ground arith) ∙ pair b0 (ap length (sym e))
  | inr above ↦ elim (Bool-cases (ltb c 2048)) [
    | inl small ↦
        let e : encode c ≡ (192 + c / 64) ∷ (128 + c % 64) ∷ [] = ground arith in
        let (b0, (b1, _)) = subst (Begins s) e v in
        decoded-2 s (ground arith) (ground arith)
        ∙ pair (two (s 0) (s 1) ∙ ground arith) (ap length (sym e))
    | inr above2 ↦ elim (Bool-cases (ltb c 65536)) [
      | inl middle ↦
          let bs = (224 + c / 4096) ∷ (128 + c / 64 % 64) ∷ (128 + c % 64) ∷ [] in
          let e : encode c ≡ bs = ground arith in
          let (b0, (b1, (b2, _))) = subst (Begins s) e v in
          decoded-3 s (ground arith) (ground arith)
          ∙ pair (three (s 0) (s 1) (s 2) ∙ ground arith) (ap length (sym e))
      | inr large ↦
          let bs =
            (240 + c / 262144)
            ∷ (128 + c / 4096 % 64)
            ∷ (128 + c / 64 % 64)
            ∷ (128 + c % 64)
            ∷ [] in
          let e : encode c ≡ bs = ground arith in
          let (b0, (b1, (b2, (b3, _)))) = subst (Begins s) e v in
          decoded-4 s (ground arith) (ground arith)
          ∙ pair (four (s 0) (s 1) (s 2) (s 3) ∙ ground arith) (ap length (sym e))
    ]
  ]
]
