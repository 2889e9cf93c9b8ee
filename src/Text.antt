-- ===== src/Text.antt =====
-- kernel/font.cpp: texts in UTF-8. A text is the memory from its first byte on, as a function from
-- offsets to bytes; what the source reads behind the end of a text is whatever follows there. What
-- WriteUnicode draws for a character, with a generated font and FreeType, is not modelled: WriteString
-- gives the calls of it in order.
pub mod Masks
pub mod Decode
pub mod Encoded
mod Tests
use mikan_os.Prelude.{
  ℕ, zero, suc, ◌+◌, ◌*◌, ◌^◌, List, [], ◌∷◌, Bool, ◌&&◌, Option, none, some, ltb, leb, ◌==◌,
  bit_and, bit_or, if◌then◌else◌,
}

-- `CountUTF8Size`.
unfoldable pub count_utf8_size : ℕ → ℕ
count_utf8_size c =
    if ltb c 128
    then 1
    else if leb 192 c && ltb c 224
    then 2
    else if leb 224 c && ltb c 240
    then 3
    else if leb 240 c && ltb c 248
    then 4
    else 0

-- `(c & mask) << shift`.
abbrev pub field : ℕ → ℕ → ℕ → ℕ
field c mask shift = bit_and c mask * 2 ^ shift

-- `ConvertUTF8To32`: the character and the number of its bytes.
unfoldable pub convert_utf8_to_32 : (ℕ → ℕ) → ℕ × ℕ
convert_utf8_to_32 u8 =
    let size = count_utf8_size (u8 0) in
    if size == 1
    then (u8 0, 1)
    else if size == 2
    then (bit_or (field (u8 0) 31 6) (field (u8 1) 63 0), 2)
    else if size == 3
    then (bit_or (bit_or (field (u8 0) 15 12) (field (u8 1) 63 6)) (field (u8 2) 63 0), 3)
    else if size == 4
    then (
      bit_or (bit_or (bit_or (field (u8 0) 15 18) (field (u8 1) 63 12)) (field (u8 2) 63 6))
          (field (u8 3) 63 0),
      4,
    )
    else (0, 0)

-- `IsHankaku`.
abbrev pub is_hankaku : ℕ → Bool
is_hankaku c = leb c 127

abbrev pub columns : ℕ → ℕ
columns c = if is_hankaku c then 1 else 2

abbrev pub prepend : ℕ × ℕ → Option (List (ℕ × ℕ)) → Option (List (ℕ × ℕ))
prepend call none = none
prepend call (some calls) = some (call ∷ calls)

-- `WriteString`, from column `x`: the calls of `WriteUnicode`, each with its horizontal offset and
-- its character. `none` is a loop that goes on after all of its fuel.
unfoldable pub write_string : ℕ → (ℕ → ℕ) → ℕ → Option (List (ℕ × ℕ))
write_string zero s x = none
write_string (suc fuel) s x =
    let (u32, bytes) = convert_utf8_to_32 s in
    let rest = write_string fuel (λ j. s (bytes + j)) (x + columns u32) in
    if s 0 == 0 then some [] else prepend (8 * x, u32) rest
