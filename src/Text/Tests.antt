-- ===== src/Text/Tests.antt =====
-- Texts, and the instances of the theorems.
use mikan_os.Prelude.{ℕ, zero, suc, ◌≡◌, refl, List, [], ◌∷◌, none, some, arith}
use mikan_os.Text.{count_utf8_size, convert_utf8_to_32, write_string}
use mikan_os.Text.Decode.{Begins, convert-encode}
use mikan_os.Text.Encoded.{AllValid, encode_all, calls, write_string-encoded, write_string-invalid}

-- The memory that a list of bytes fills.
abbrev memory : List ℕ → ℕ → ℕ
memory [] j = 0
memory (b ∷ bs) zero = b
memory (b ∷ bs) (suc j) = memory bs j

-- "aあ", with U+3042 in three bytes.
abbrev kana : List ℕ
kana = 97 ∷ 12354 ∷ []

convert-encode_example : convert_utf8_to_32 (memory (227 ∷ 129 ∷ 130 ∷ 97 ∷ [])) ≡ (12354, 3)
unfolding Begins
convert-encode_example =
    convert-encode (memory (227 ∷ 129 ∷ 130 ∷ 97 ∷ [])) 12354 (omega arith)
      (refl, (refl, (refl, tt)))

kana-AllValid : AllValid kana
unfolding AllValid
kana-AllValid = (omega arith, omega arith, (omega arith, omega arith, tt))

write_string-encoded_example :
    write_string 5 (memory (97 ∷ 227 ∷ 129 ∷ 130 ∷ 0 ∷ [])) 1 ≡ some ((8, 97) ∷ (16, 12354) ∷ [])
unfolding Begins encode_all calls
write_string-encoded_example =
    write_string-encoded kana 5 (memory (97 ∷ 227 ∷ 129 ∷ 130 ∷ 0 ∷ [])) 1 kana-AllValid
      (refl, (refl, (refl, (refl, (refl, tt))))) (omega arith)

write_string-invalid_example : write_string 100 (memory (97 ∷ 227 ∷ 129 ∷ 130 ∷ 128 ∷ [])) 0 ≡ none
unfolding Begins encode_all count_utf8_size
write_string-invalid_example =
    write_string-invalid kana 128 100 (memory (97 ∷ 227 ∷ 129 ∷ 130 ∷ 128 ∷ [])) 0 kana-AllValid
      refl (refl, (refl, (refl, (refl, (refl, tt)))))
