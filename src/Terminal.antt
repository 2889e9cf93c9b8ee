-- ===== src/Terminal.antt =====
-- Terminal::Print of kernel/terminal.cpp: the text cursor of the terminal, and what is drawn at it. The
-- window is the list of what is done to it.
pub mod Cursor
pub mod Printed
pub mod Arguments
mod Tests
use mikan_os.Prelude.{
  ℕ, zero, suc, ◌+◌, ◌-◌, List, [], ◌∷◌, ◌++◌, Bool, true, false, not, ◌||◌, Option, none, some,
  ltb, leb, ◌==◌, if◌then◌else◌,
}
use mikan_os.Text.{convert_utf8_to_32, is_hankaku}

abbrev pub row_count : ℕ
row_count = 15

abbrev pub column_count : ℕ
column_count = 60

-- `WriteUnicode` at a column and a row, or `Scroll1`.
pub data Output : Type 0 where
  glyph : (x y c : ℕ) → Output
  scroll : Output

pub record Terminal : Type 0 where
  pub show_window : Bool
  pub cursor_x : ℕ
  pub cursor_y : ℕ

-- The lambda `newline` of `Print`.
unfoldable pub newline : Terminal → Terminal × List Output
newline t =
    if ltb t.cursor_y (row_count - 1)
    then (record t { cursor_x = 0; cursor_y = t.cursor_y + 1 }, [])
    else (record t { cursor_x = 0 }, scroll ∷ [])

-- A character at the cursor, after a new line if the cursor is at `last`.
unfoldable pub write_at : ℕ → ℕ → Terminal → ℕ → Terminal × List Output
write_at last width t c =
    let (at, scrolled) = if t.cursor_x == last then newline t else (t, []) in
    (
      record at { cursor_x = at.cursor_x + width },
      scrolled ++ (glyph at.cursor_x at.cursor_y c ∷ []),
    )

-- `Print` of a character.
unfoldable pub print_char : Terminal → ℕ → Terminal × List Output
print_char t c =
    if not t.show_window
    then (t, [])
    else if c == 10
    then newline t
    else if is_hankaku c
    then write_at column_count 1 t c
    else write_at (column_count - 1) 2 t c

-- Whether `i < len_` fails.
abbrev pub beyond : ℕ → Option ℕ → Bool
beyond i none = false
beyond i (some len) = leb len i

abbrev pub after : List Output → Option (Terminal × List Output) → Option (Terminal × List Output)
after out none = none
after out (some (t, later)) = some (t, out ++ later)

-- The loop of `Print` of a text, from offset `i`. `none` is a loop that goes on after all of its fuel.
unfoldable pub print_text : ℕ → Terminal → (ℕ → ℕ) → Option ℕ → ℕ → Option (Terminal × List Output)
print_text zero t s len i = none
print_text (suc fuel) t s len i =
    let (u32, bytes) = convert_utf8_to_32 (λ j. s (i + j)) in
    let (t', out) = print_char t u32 in
    let rest = print_text fuel t' s len (i + bytes) in
    if s i == 0 || beyond i len then some (t, []) else after out rest
