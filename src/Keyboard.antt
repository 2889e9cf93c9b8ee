-- ===== src/Keyboard.antt =====
-- kernel/keyboard.hpp and kernel/keyboard.cpp: the key maps, and the message that a key sends.
mod Tests
use mikan_os.Prelude.{ℕ, List, [], ◌∷◌, bit_and, bit_or, ◌==◌, get_or, if◌then◌else◌}
use mikan_os.Error.{Code}
use mikan_os.Message.{Message, key_push}
use mikan_os.Task.{TaskManager, send_message}

-- `kLShiftBitMask` and `kRShiftBitMask`.
abbrev pub l_shift_bit_mask : ℕ
l_shift_bit_mask = 2

abbrev pub r_shift_bit_mask : ℕ
r_shift_bit_mask = 32

-- `keycode_map` and `keycode_map_shifted`, in ASCII. The rest of the 256 entries is 0.
abbrev pub keycode_map : List ℕ
keycode_map =
    0 ∷ 0 ∷ 0 ∷ 0 ∷ 97 ∷ 98 ∷ 99 ∷ 100 ∷ 101 ∷ 102 ∷ 103 ∷ 104 ∷ 105 ∷ 106 ∷ 107 ∷ 108 ∷ 109 ∷ 110
    ∷ 111 ∷ 112 ∷ 113 ∷ 114 ∷ 115 ∷ 116 ∷ 117 ∷ 118 ∷ 119 ∷ 120 ∷ 121 ∷ 122 ∷ 49 ∷ 50 ∷ 51 ∷ 52 ∷ 53
    ∷ 54 ∷ 55 ∷ 56 ∷ 57 ∷ 48 ∷ 10 ∷ 8 ∷ 8 ∷ 9 ∷ 32 ∷ 45 ∷ 61 ∷ 91 ∷ 93 ∷ 92 ∷ 35 ∷ 59 ∷ 39 ∷ 96 ∷ 44
    ∷ 46 ∷ 47 ∷ 0 ∷ 0 ∷ 0 ∷ 0 ∷ 0 ∷ 0 ∷ 0 ∷ 0 ∷ 0 ∷ 0 ∷ 0 ∷ 0 ∷ 0 ∷ 0 ∷ 0 ∷ 0 ∷ 0 ∷ 0 ∷ 0 ∷ 0 ∷ 0
    ∷ 0 ∷ 0 ∷ 0 ∷ 0 ∷ 0 ∷ 0 ∷ 47 ∷ 42 ∷ 45 ∷ 43 ∷ 10 ∷ 49 ∷ 50 ∷ 51 ∷ 52 ∷ 53 ∷ 54 ∷ 55 ∷ 56 ∷ 57
    ∷ 48 ∷ 46 ∷ 92 ∷ 0 ∷ 0 ∷ 61 ∷ 0 ∷ 0 ∷ 0 ∷ 0 ∷ 0 ∷ 0 ∷ 0 ∷ 0 ∷ 0 ∷ 0 ∷ 0 ∷ 0 ∷ 0 ∷ 0 ∷ 0 ∷ 0 ∷ 0
    ∷ 0 ∷ 0 ∷ 0 ∷ 0 ∷ 0 ∷ 0 ∷ 0 ∷ 0 ∷ 0 ∷ 0 ∷ 0 ∷ 0 ∷ 0 ∷ 0 ∷ 0 ∷ 0 ∷ 92 ∷ 0 ∷ 0 ∷ 0 ∷ 0 ∷ 0 ∷ 0
    ∷ []

abbrev pub keycode_map_shifted : List ℕ
keycode_map_shifted =
    0 ∷ 0 ∷ 0 ∷ 0 ∷ 65 ∷ 66 ∷ 67 ∷ 68 ∷ 69 ∷ 70 ∷ 71 ∷ 72 ∷ 73 ∷ 74 ∷ 75 ∷ 76 ∷ 77 ∷ 78 ∷ 79 ∷ 80
    ∷ 81 ∷ 82 ∷ 83 ∷ 84 ∷ 85 ∷ 86 ∷ 87 ∷ 88 ∷ 89 ∷ 90 ∷ 33 ∷ 64 ∷ 35 ∷ 36 ∷ 37 ∷ 94 ∷ 38 ∷ 42 ∷ 40
    ∷ 41 ∷ 10 ∷ 8 ∷ 8 ∷ 9 ∷ 32 ∷ 95 ∷ 43 ∷ 123 ∷ 125 ∷ 124 ∷ 126 ∷ 58 ∷ 34 ∷ 126 ∷ 60 ∷ 62 ∷ 63 ∷ 0
    ∷ 0 ∷ 0 ∷ 0 ∷ 0 ∷ 0 ∷ 0 ∷ 0 ∷ 0 ∷ 0 ∷ 0 ∷ 0 ∷ 0 ∷ 0 ∷ 0 ∷ 0 ∷ 0 ∷ 0 ∷ 0 ∷ 0 ∷ 0 ∷ 0 ∷ 0 ∷ 0 ∷ 0
    ∷ 0 ∷ 0 ∷ 47 ∷ 42 ∷ 45 ∷ 43 ∷ 10 ∷ 49 ∷ 50 ∷ 51 ∷ 52 ∷ 53 ∷ 54 ∷ 55 ∷ 56 ∷ 57 ∷ 48 ∷ 46 ∷ 92 ∷ 0
    ∷ 0 ∷ 61 ∷ 0 ∷ 0 ∷ 0 ∷ 0 ∷ 0 ∷ 0 ∷ 0 ∷ 0 ∷ 0 ∷ 0 ∷ 0 ∷ 0 ∷ 0 ∷ 0 ∷ 0 ∷ 0 ∷ 0 ∷ 0 ∷ 0 ∷ 0 ∷ 0 ∷ 0
    ∷ 0 ∷ 0 ∷ 0 ∷ 0 ∷ 0 ∷ 0 ∷ 0 ∷ 0 ∷ 0 ∷ 0 ∷ 0 ∷ 124 ∷ 0 ∷ 0 ∷ 0 ∷ 0 ∷ 0 ∷ 0 ∷ []

-- The character of a key, or 0.
unfoldable pub ascii_of : (modifier keycode : ℕ) → ℕ
ascii_of modifier keycode =
    if bit_and modifier (bit_or l_shift_bit_mask r_shift_bit_mask) == 0
    then get_or keycode_map keycode 0
    else get_or keycode_map_shifted keycode 0

-- The observer of `InitializeKeyboard`. The task 1 is the main task; its error is not read.
pub on_key : {C : Type 0} → TaskManager C → (modifier keycode press : ℕ) → TaskManager C
on_key m modifier keycode press =
    (send_message m 1 (record {
      src_task = 0;
      arg = key_push modifier keycode (ascii_of modifier keycode) press;
    })).1
