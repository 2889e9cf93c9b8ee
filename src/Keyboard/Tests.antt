-- ===== src/Keyboard/Tests.antt =====
-- Keys with and without shift.
use mikan_os.Prelude.{◌≡◌, refl}
use mikan_os.Keyboard.{ascii_of}

-- The key 4 is `a`, and `A` with the right shift key.
key_a : ascii_of 0 4 ≡ 97
unfolding ascii_of
key_a = refl

key_a_shifted : ascii_of 32 4 ≡ 65
unfolding ascii_of
key_a_shifted = refl

-- The key 137 is the backslash of a Japanese keyboard, and 144 is none.
key_backslash : ascii_of 1 137 ≡ 92
unfolding ascii_of
key_backslash = refl

no_key : ascii_of 0 144 ≡ 0
unfolding ascii_of
no_key = refl
