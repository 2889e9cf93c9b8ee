-- ===== src/Terminal/Tests.antt =====
-- A terminal, and the instances of the theorems.
use mikan_os.Prelude.{ℕ, zero, suc, ◌≡◌, refl, List, [], ◌∷◌, true, none, some, arith}
use mikan_os.Text.Decode.{Begins}
use mikan_os.Text.Encoded.{AllValid, encode_all}
use mikan_os.Terminal.{Terminal, column_count, row_count, print_text}
use mikan_os.Terminal.Cursor.{
  print_chars, drawn_chars, inline_chars, AllHankaku, AllDrawn, IsInside, print_chars-IsInside,
}
use mikan_os.Terminal.Printed.{
  row_from, row_end, AllInline, print_text-encoded, print_chars-full_row,
}

abbrev memory : List ℕ → ℕ → ℕ
memory [] j = 0
memory (b ∷ bs) zero = b
memory (b ∷ bs) (suc j) = memory bs j

-- The last row is full.
abbrev full : Terminal
full = record { show_window = true; cursor_x = 60; cursor_y = 14 }

full-IsInside : IsInside full
full-IsInside = record { column = omega arith; row = omega arith }

line-AllHankaku : AllHankaku (97 ∷ 10 ∷ 98 ∷ [])
unfolding AllHankaku
line-AllHankaku = (omega arith, (omega arith, (omega arith, tt)))

print_chars-IsInside_example :
    let (t', out) = print_chars full (97 ∷ 10 ∷ 98 ∷ []) in
    IsInside t'
    × AllDrawn 0 column_count row_count out
    × (drawn_chars out ≡ inline_chars (97 ∷ 10 ∷ 98 ∷ []))
print_chars-IsInside_example =
    print_chars-IsInside full (97 ∷ 10 ∷ 98 ∷ []) line-AllHankaku full-IsInside refl

line-AllInline : AllInline (97 ∷ 98 ∷ [])
unfolding AllInline
line-AllInline = (λ e. omega arith, (λ e. omega arith, tt))

print_chars-full_row_example : print_chars full (12354 ∷ 97 ∷ 98 ∷ []) ≡ (
  record full { cursor_x = row_end column_count (12354 ∷ 97 ∷ 98 ∷ []) },
  row_from column_count 14 (12354 ∷ 97 ∷ 98 ∷ []),
)
print_chars-full_row_example =
    print_chars-full_row full 12354 (97 ∷ 98 ∷ []) refl refl (omega arith) line-AllInline

kana-AllValid : AllValid (97 ∷ 12354 ∷ [])
unfolding AllValid
kana-AllValid = (omega arith, omega arith, (omega arith, omega arith, tt))

print_text-encoded_example :
    print_text 5 full (memory (97 ∷ 227 ∷ 129 ∷ 130 ∷ 0 ∷ [])) none 0
    ≡ some (print_chars full (97 ∷ 12354 ∷ []))
unfolding Begins encode_all
print_text-encoded_example =
    print_text-encoded (97 ∷ 12354 ∷ []) 5 full (memory (97 ∷ 227 ∷ 129 ∷ 130 ∷ 0 ∷ [])) 0
      kana-AllValid (refl, (refl, (refl, (refl, (refl, tt))))) (omega arith)
