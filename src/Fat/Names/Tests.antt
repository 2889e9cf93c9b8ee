-- ===== src/Fat/Names/Tests.antt =====
-- Names of files.
use mikan_os.Prelude.{ℕ, ◌-◌, ◌≡◌, refl, [], ◌∷◌, true, ◌&&◌, leb, if◌then◌else◌}
use mikan_os.Fat.Names.{
  c_string, strip, read_name, format_name, last_dot, set_file_name, fill_name83, same_bytes,
  name_is_equal,
}

-- `toupper` of the letters of ASCII.
abbrev ascii_toupper : ℕ → ℕ
ascii_toupper c = if leb 97 c && leb c 122 then c - 32 else c

-- `ab.c` and `AB.C`.
set_file_name_ab :
    set_file_name ascii_toupper (97 ∷ 98 ∷ 46 ∷ 99 ∷ [])
    ≡ 65 ∷ 66 ∷ 32 ∷ 32 ∷ 32 ∷ 32 ∷ 32 ∷ 32 ∷ 67 ∷ 32 ∷ 32 ∷ []
unfolding set_file_name last_dot
set_file_name_ab = refl

name_is_equal_ab :
    name_is_equal ascii_toupper
      (65 ∷ 66 ∷ 32 ∷ 32 ∷ 32 ∷ 32 ∷ 32 ∷ 32 ∷ 67 ∷ 32 ∷ 32 ∷ [])
      (97 ∷ 98 ∷ 46 ∷ 99 ∷ [])
    ≡ true
unfolding name_is_equal fill_name83 same_bytes
name_is_equal_ab = refl

format_name_ab :
    format_name (65 ∷ 66 ∷ 32 ∷ 32 ∷ 32 ∷ 32 ∷ 32 ∷ 32 ∷ 67 ∷ 32 ∷ 32 ∷ []) ≡ 65 ∷ 66 ∷ 46 ∷ 67 ∷ []
unfolding format_name read_name strip c_string
format_name_ab = refl
