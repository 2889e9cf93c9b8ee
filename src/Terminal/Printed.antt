-- ===== src/Terminal/Printed.antt =====
-- What Print does with a text in UTF-8, and where it leaves the text area.
use mikan_os.Prelude.{
  ℕ, zero, suc, ◌+◌, ◌^◌, ◌<◌, ◌≡◌, ◌≢◌, refl, ◌∙◌, ap, sym, subst, List, [], ◌∷◌, ◌++◌, true, none,
  some, if◌then◌else◌, length, arith, ==_no,
}
use mathlib.Core.List.{append_assoc}
use mikan_os.Text.{is_hankaku}
use mikan_os.Text.Decode.{encode, Begins, convert-encode}
use mikan_os.Text.Encoded.{
  AllValid, encode_all, Begins-left, Begins-right, Begins-same, encode-first,
}
use mikan_os.Terminal.{
  column_count, Output, glyph, Terminal, write_at, print_char, after, print_text,
}
use mikan_os.Terminal.Cursor.{print_chars}

add_zero : (i : ℕ) → i ≡ i + 0
add_zero i = omega arith

-- The round of the loop for one character.
print_text-round :
    (fuel : ℕ) (t : Terminal) (s : ℕ → ℕ) (i c : ℕ) (rest : List ℕ)
    → 0 < c
    → c < 2 ^ 21
    → Begins (λ j. s (i + j)) (encode c ++ rest)
    → let (t', out) = print_char t c in
      print_text (suc fuel) t s none i
      ≡ after out (print_text fuel t' s none (i + length (encode c)))
unfolding print_text
print_text-round fuel t s i c rest positive small v =
    let first = Begins-left (λ j. s (i + j)) (encode c) rest v in
    let at : s (i + 0) ≡ s i = ap s (omega arith) in
    let some_byte : s i ≢ 0 =
      λ e. omega (arith, encode-first (λ j. s (i + j)) c positive first, at) in
    rw (print_text, convert-encode (λ j. s (i + j)) c small first, ==_no (s i) 0 some_byte) refl

-- The loop of `Print` of a text in UTF-8 with no length ends, after as many rounds as there are
-- characters and one more, and prints the characters in order.
pub print_text-encoded :
    (cs : List ℕ) (fuel : ℕ) (t : Terminal) (s : ℕ → ℕ) (i : ℕ)
    → AllValid cs
    → Begins (λ j. s (i + j)) (encode_all cs ++ (0 ∷ []))
    → length cs < fuel
    → print_text fuel t s none i ≡ some (print_chars t cs)
unfolding AllValid encode_all print_chars print_text Begins
print_text-encoded cs zero t s i valid v h = absurd (omega arith)
print_text-encoded [] (suc fuel) t s i valid v h =
    let end : s i ≡ 0 = ap s (add_zero i) ∙ v.0 in ground arith
print_text-encoded (c ∷ cs) (suc fuel) t s i (positive, small, valid) v h =
    let rest = encode_all cs ++ (0 ∷ []) in
    let v' = subst (Begins (λ j. s (i + j))) (append_assoc (encode c) (encode_all cs) (0 ∷ [])) v in
    let (t', out) = print_char t c in
    let size = length (encode c) in
    let next : Begins (λ j. s (i + size + j)) rest =
      Begins-same (λ j. s (i + (size + j))) (λ j. s (i + size + j)) rest (λ j. ap s (omega arith))
        (Begins-right (λ j. s (i + j)) (encode c) rest v') in
    print_text-round fuel t s i c rest positive small v'
    ∙ ap (after out) (print_text-encoded cs fuel t' s (i + size) valid next (omega arith))

-- How many columns a character takes.
abbrev pub width_of : ℕ → ℕ
width_of c = if is_hankaku c then 1 else 2

-- Characters side by side in a row, from a column on, and the column behind them.
unfoldable pub row_from : (x y : ℕ) → List ℕ → List Output
row_from x y [] = []
row_from x y (c ∷ cs) = glyph x y c ∷ row_from (x + width_of c) y cs

unfoldable pub row_end : ℕ → List ℕ → ℕ
row_end x [] = x
row_end x (c ∷ cs) = row_end (x + width_of c) cs

-- Characters but new lines.
unfoldable pub AllInline : List ℕ → Type 0
AllInline [] = Unit
AllInline (c ∷ cs) = (c ≢ 10) × AllInline cs

print_char-behind :
    (t : Terminal) (c : ℕ)
    → t.show_window ≡ true
    → c ≢ 10
    → column_count < t.cursor_x
    → print_char t c ≡ (
      record t { cursor_x = t.cursor_x + (if is_hankaku c then 1 else 2) },
      glyph t.cursor_x t.cursor_y c ∷ [],
    )
unfolding print_char write_at
print_char-behind t c shown inline behind = ground arith

print_chars-behind :
    (t : Terminal) (cs : List ℕ)
    → t.show_window ≡ true
    → AllInline cs
    → column_count < t.cursor_x
    → print_chars t cs
      ≡ (record t { cursor_x = row_end t.cursor_x cs }, row_from t.cursor_x t.cursor_y cs)
unfolding print_chars AllInline row_from row_end
print_chars-behind t [] shown inline behind = refl
print_chars-behind t (c ∷ cs) shown (here, inline) behind =
    let t' = record t { cursor_x = t.cursor_x + width_of c } in
    ap
      (λ (r : Terminal × List Output). let (t'', later) = print_chars r.0 cs in (t'', r.1 ++ later))
      (print_char-behind t c shown here behind)
    ∙ ap (λ (r : Terminal × List Output). (r.0, glyph t.cursor_x t.cursor_y c ∷ r.1))
        (print_chars-behind t' cs shown inline (omega arith))

-- When a row is full, a character of full width and all characters after it, up to the next new line,
-- are written side by side from behind the last column on, in the same row, and the cursor stays in that
-- row, behind them: the terminal with a window does not go to the next row, and does not scroll.
pub print_chars-full_row :
    (t : Terminal) (c : ℕ) (cs : List ℕ)
    → t.show_window ≡ true
    → t.cursor_x ≡ column_count
    → 127 < c
    → AllInline cs
    → print_chars t (c ∷ cs) ≡ (
      record t { cursor_x = row_end column_count (c ∷ cs) },
      row_from column_count t.cursor_y (c ∷ cs),
    )
unfolding print_chars print_char write_at row_from row_end
print_chars-full_row t c cs shown full wide inline =
    let t' = record t { cursor_x = column_count + 2 } in
    let two : width_of c ≡ 2 = ground arith in
    let here : print_char t c
        ≡ (record t { cursor_x = t.cursor_x + 2 }, glyph t.cursor_x t.cursor_y c ∷ []) =
      ground arith in
    let first : print_char t c ≡ (t', glyph column_count t.cursor_y c ∷ []) =
      here ∙ ap (λ (x : ℕ). (record t { cursor_x = x + 2 }, glyph x t.cursor_y c ∷ [])) full in
    ap
      (λ (r : Terminal × List Output). let (t'', later) = print_chars r.0 cs in (t'', r.1 ++ later))
      first
    ∙ ap (λ (r : Terminal × List Output). (r.0, glyph column_count t.cursor_y c ∷ r.1))
        (print_chars-behind t' cs shown inline (omega arith))
    ∙ ap
        (λ (w : ℕ). (
          record t { cursor_x = row_end (column_count + w) cs },
          glyph column_count t.cursor_y c ∷ row_from (column_count + w) t.cursor_y cs,
        ))
        (sym two)
