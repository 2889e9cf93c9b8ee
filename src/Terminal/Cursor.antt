-- ===== src/Terminal/Cursor.antt =====
-- Where the cursor of the terminal goes.
use mikan_os.Prelude.{
  ℕ, ◌+◌, ◌-◌, ◌<◌, ◌≤◌, ◌≡◌, refl, List, [], ◌∷◌, ◌++◌, Bool, true, false, not, ltb, ◌==◌, arith,
  Bool-cases, inl, inr, if_both, if_split, if◌then◌else◌, ap, ap₂, ◌∙◌,
}
use mikan_os.Text.{is_hankaku}
use mikan_os.Terminal.{
  row_count, column_count, Output, glyph, scroll, Terminal, newline, write_at, print_char,
}

-- `Print` of one character after another.
unfoldable pub print_chars : Terminal → List ℕ → Terminal × List Output
print_chars t [] = (t, [])
print_chars t (c ∷ cs) =
    let (t', out) = print_char t c in let (t'', later) = print_chars t' cs in (t'', out ++ later)

-- Characters of the width of one column.
unfoldable pub AllHankaku : List ℕ → Type 0
AllHankaku [] = Unit
AllHankaku (c ∷ cs) = (c ≤ 127) × AllHankaku cs

-- Glyphs that lie between two columns and above a row.
unfoldable pub AllDrawn : ℕ → ℕ → ℕ → List Output → Type 0
AllDrawn left right bottom [] = Unit
AllDrawn left right bottom (glyph x y c ∷ os) =
    (left ≤ x) × (x < right) × (y < bottom) × AllDrawn left right bottom os
AllDrawn left right bottom (scroll ∷ os) = AllDrawn left right bottom os

AllDrawn-append :
    (left right bottom : ℕ) (os ps : List Output)
    → AllDrawn left right bottom os
    → AllDrawn left right bottom ps
    → AllDrawn left right bottom (os ++ ps)
unfolding AllDrawn
AllDrawn-append left right bottom [] ps v w = w
AllDrawn-append left right bottom (glyph x y c ∷ os) ps (l, r, b, v) w =
    (l, r, b, AllDrawn-append left right bottom os ps v w)
AllDrawn-append left right bottom (scroll ∷ os) ps v w = AllDrawn-append left right bottom os ps v w

-- The cursor is in the text area, or behind the last column of a row.
pub record IsInside (t : Terminal) : Type 0 where
  pub column : t.cursor_x ≤ column_count
  pub row : t.cursor_y < row_count

-- The characters that were drawn, in order.
unfoldable pub drawn_chars : List Output → List ℕ
drawn_chars [] = []
drawn_chars (glyph x y c ∷ os) = c ∷ drawn_chars os
drawn_chars (scroll ∷ os) = drawn_chars os

drawn_chars-append :
    (os ps : List Output) → drawn_chars (os ++ ps) ≡ drawn_chars os ++ drawn_chars ps
unfolding drawn_chars
drawn_chars-append [] ps = refl
drawn_chars-append (glyph x y c ∷ os) ps = ap (λ (r : List ℕ). c ∷ r) (drawn_chars-append os ps)
drawn_chars-append (scroll ∷ os) ps = drawn_chars-append os ps

-- The characters of a text that are no new lines.
unfoldable pub inline_chars : List ℕ → List ℕ
inline_chars [] = []
inline_chars (c ∷ cs) = let rest = inline_chars cs in if c == 10 then rest else c ∷ rest

newline-drawn_chars :
    (t : Terminal) → (drawn_chars (newline t).1 ≡ []) × ((newline t).0.show_window ≡ t.show_window)
unfolding newline drawn_chars
newline-drawn_chars t =
    if_both
      (λ (r : Terminal × List Output). (drawn_chars r.1 ≡ []) × (r.0.show_window ≡ t.show_window))
      (ltb t.cursor_y (row_count - 1)) (refl, refl) (refl, refl)

write_at-drawn_chars :
    (last width : ℕ) (t : Terminal) (c : ℕ)
    → let (t', out) = write_at last width t c in
      (drawn_chars out ≡ c ∷ []) × (t'.show_window ≡ t.show_window)
unfolding write_at drawn_chars
write_at-drawn_chars last width t c =
    if_both
      (λ (r : Terminal × List Output).
        (drawn_chars (r.1 ++ (glyph r.0.cursor_x r.0.cursor_y c ∷ [])) ≡ c ∷ [])
        × (r.0.show_window ≡ t.show_window))
      (t.cursor_x == last)
      (let (blank, same) = newline-drawn_chars t in
        (
          drawn_chars-append (newline t).1
                (glyph (newline t).0.cursor_x (newline t).0.cursor_y c ∷ [])
              ∙ ap (λ (r : List ℕ). r ++ (c ∷ [])) blank,
          same,
        ))
      (refl, refl)

-- What a character that is printed draws.
print_char-drawn_chars :
    (t : Terminal) (c : ℕ)
    → t.show_window ≡ true
    → let (t', out) = print_char t c in
      (drawn_chars out ≡ (if c == 10 then [] else c ∷ [])) × (t'.show_window ≡ true)
unfolding print_char
print_char-drawn_chars t c shown =
    let P : Terminal × List Output → Type 0 =
      λ r. (drawn_chars r.1 ≡ (if c == 10 then [] else c ∷ [])) × (r.0.show_window ≡ true) in
    let (blank, still) = newline-drawn_chars t in
    let (narrow, narrow_still) = write_at-drawn_chars column_count 1 t c in
    let (wide, wide_still) = write_at-drawn_chars (column_count - 1) 2 t c in
    if_split P (not t.show_window) (λ hidden. absurd (ground (arith, hidden, shown)))
      (λ visible.
        if_split P (c == 10) (λ line. rw line (blank, still ∙ shown))
          (λ inline.
            if_both P (is_hankaku c) (rw inline (narrow, narrow_still ∙ shown))
              (rw inline (wide, wide_still ∙ shown))))

-- A terminal with a window draws the characters of a text one by one.
print_chars-drawn_chars :
    (t : Terminal) (cs : List ℕ)
    → t.show_window ≡ true
    → drawn_chars (print_chars t cs).1 ≡ inline_chars cs
unfolding print_chars inline_chars drawn_chars
print_chars-drawn_chars t [] shown = refl
print_chars-drawn_chars t (c ∷ cs) shown =
    let (t', out) = print_char t c in
    let (one, shown') = print_char-drawn_chars t c shown in
    let rest = print_chars-drawn_chars t' cs shown' in
    let split : (b : Bool)
        → (if b then [] else c ∷ []) ++ inline_chars cs
          ≡ (if b then inline_chars cs else c ∷ inline_chars cs) =
      λ b.
        elim b
          as (λ x.
            (if x then [] else c ∷ []) ++ inline_chars cs
            ≡ (if x then inline_chars cs else c ∷ inline_chars cs)) [
              | true ↦ refl
              | false ↦ refl
            ] in
    drawn_chars-append out (print_chars t' cs).1
    ∙ ap₂ (λ (x y : List ℕ). x ++ y) one rest
    ∙ split (c == 10)

-- The cursor and what was drawn stay in the area.
Stays : Terminal × List Output → Type 0
Stays (t, out) = IsInside t × AllDrawn 0 column_count row_count out

newline-inside : (t : Terminal) → IsInside t → Stays (newline t) × ((newline t).0.cursor_x ≡ 0)
unfolding Stays newline AllDrawn
newline-inside t v = elim (Bool-cases (ltb t.cursor_y (row_count - 1))) [
  | inl above ↦
      rw (newline, above) ((record { column = omega arith; row = ground arith }, tt), refl)
  | inr last ↦ rw (newline, last) ((record { column = omega arith; row = v.row }, tt), refl)
]

glyph-inside :
    (t : Terminal) (out : List Output) (c : ℕ)
    → t.cursor_x < column_count
    → t.cursor_y < row_count
    → AllDrawn 0 column_count row_count out
    → Stays (record t { cursor_x = t.cursor_x + 1 }, out ++ (glyph t.cursor_x t.cursor_y c ∷ []))
unfolding Stays AllDrawn
glyph-inside t out c x y drawn = (
  record { column = omega arith; row = y },
  AllDrawn-append 0 column_count row_count out (glyph t.cursor_x t.cursor_y c ∷ []) drawn
      (omega arith, x, y, tt),
)

write_at-inside : (t : Terminal) (c : ℕ) → IsInside t → Stays (write_at column_count 1 t c)
unfolding Stays write_at AllDrawn
write_at-inside t c v = elim (Bool-cases (t.cursor_x == column_count)) [
  | inl full ↦
      let ((v', drawn), start) = newline-inside t v in
      let (at, scrolled) = newline t in
      rw (write_at, full) (glyph-inside at scrolled c (omega (arith, start)) v'.row drawn)
  | inr free ↦ rw (write_at, free) (glyph-inside t [] c (ground (arith, v.column)) v.row tt)
]

print_char-IsInside : (t : Terminal) (c : ℕ) → c ≤ 127 → IsInside t → Stays (print_char t c)
unfolding Stays print_char AllDrawn
print_char-IsInside t c h v =
    let narrow : is_hankaku c ≡ true = ground arith in
    if_both Stays (not t.show_window) (v, tt)
      (if_both Stays (c == 10) (newline-inside t v).0 (rw narrow (write_at-inside t c v)))

print_chars-Stays :
    (t : Terminal) (cs : List ℕ) → AllHankaku cs → IsInside t → Stays (print_chars t cs)
unfolding print_chars AllHankaku AllDrawn Stays
print_chars-Stays t [] narrow v = (v, tt)
print_chars-Stays t (c ∷ cs) (h, narrow) v =
    let (t', out) = print_char t c in
    let (v', drawn) = print_char-IsInside t c h v in
    let (v'', later) = print_chars-Stays t' cs narrow v' in
    (v'', AllDrawn-append 0 column_count row_count out (print_chars t' cs).1 drawn later)

-- A terminal with a window, whose cursor is in one of the 15 rows and at most behind the last of the 60
-- columns, draws a text of characters of one column, new lines among them, in these rows and columns,
-- every character but the new lines once and in order, and has the cursor there again.
pub print_chars-IsInside :
    (t : Terminal) (cs : List ℕ)
    → AllHankaku cs
    → IsInside t
    → t.show_window ≡ true
    → let (t', out) = print_chars t cs in
      IsInside t' × AllDrawn 0 column_count row_count out × (drawn_chars out ≡ inline_chars cs)
unfolding Stays
print_chars-IsInside t cs narrow v shown =
    let (v', drawn) = print_chars-Stays t cs narrow v in
    (v', drawn, print_chars-drawn_chars t cs shown)
