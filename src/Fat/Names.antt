-- ===== src/Fat/Names.antt =====
-- kernel/fat.cpp: the names of directory entries, 8 characters and 3 more, padded with spaces. A string
-- is the list of its characters before the NUL. `toupper` of the C library is an argument.
pub mod Padded
pub mod Equal
mod Tests
use mikan_os.Prelude.{
  ℕ, suc, ◌+◌, ◌-◌, List, [], ◌∷◌, ◌++◌, map, Bool, true, false, ◌&&◌, Option, none, some, ltb,
  ◌==◌, if◌then◌else◌, take, drop, length, replicate, set,
}

-- The string that starts at an array: what is before the first NUL.
unfoldable pub c_string : List ℕ → List ℕ
c_string [] = []
c_string (c ∷ cs) = let rest = c_string cs in if c == 0 then [] else c ∷ rest

-- The loops of `ReadName`: NULs for the spaces at the end.
unfoldable pub strip : List ℕ → List ℕ
strip [] = []
strip (c ∷ cs) = elim (strip cs) [ [] ↦ if c == 32 then [] else c ∷ [] | d ∷ ds ↦ c ∷ d ∷ ds ]

-- `ReadName`, of the name of an entry.
unfoldable pub read_name : List ℕ → List ℕ × List ℕ
read_name name = (c_string (strip (take 8 name)), c_string (strip (take 3 (drop 8 name))))

-- `FormatName`.
unfoldable pub format_name : List ℕ → List ℕ
format_name name =
    let (base, ext) = read_name name in elim ext [ [] ↦ base | c ∷ cs ↦ base ++ 46 ∷ c ∷ cs ]

-- `strrchr(name, '.')`: what is before and behind the last dot.
unfoldable pub last_dot : List ℕ → Option (List ℕ × List ℕ)
last_dot [] = none
last_dot (c ∷ cs) = elim (last_dot cs) [
  | some (before, behind) ↦ some (c ∷ before, behind)
  | none ↦ if c == 46 then some ([], cs) else none
]

-- Characters at the start of an array of `n` spaces.
abbrev pub padded : ℕ → List ℕ → List ℕ
padded n cs = cs ++ replicate (n - length cs) 32

-- The name that `SetFileName` gives an entry.
unfoldable pub set_file_name : (ℕ → ℕ) → List ℕ → List ℕ
set_file_name toupper name = elim (last_dot name) [
  | some (before, behind) ↦
      padded 8 (map toupper (take 8 before)) ++ padded 3 (map toupper (take 3 behind))
  | none ↦ padded 11 (map toupper (take 8 name))
]

-- The loop of `NameIsEqual`, from the index `i83` on.
unfoldable pub fill_name83 : (ℕ → ℕ) → List ℕ → ℕ → List ℕ → List ℕ
fill_name83 toupper name83 i83 [] = name83
fill_name83 toupper name83 i83 (c ∷ cs) =
    let behind_dot = fill_name83 toupper name83 8 cs in
    let next = fill_name83 toupper (set name83 i83 (toupper c)) (i83 + 1) cs in
    if ltb i83 11 then if c == 46 then behind_dot else next else name83

-- `memcmp` of arrays of one length, and whether it is 0.
unfoldable pub same_bytes : List ℕ → List ℕ → Bool
same_bytes [] [] = true
same_bytes (x ∷ xs) (y ∷ ys) = x == y && same_bytes xs ys
same_bytes _ _ = false

-- `NameIsEqual`, of the name of an entry.
unfoldable pub name_is_equal : (ℕ → ℕ) → List ℕ → List ℕ → Bool
name_is_equal toupper entry_name name =
    same_bytes entry_name (fill_name83 toupper (replicate 11 32) 0 name)

-- `NextPathElement`: the element, and the path behind the slash, if there is one. The source copies the
-- element to an array without asking for its length.
unfoldable pub next_path_element : List ℕ → List ℕ × Option (List ℕ)
next_path_element [] = ([], none)
next_path_element (c ∷ cs) =
    let (path_elem, next) = next_path_element cs in
    if c == 47 then ([], some cs) else (c ∷ path_elem, next)
