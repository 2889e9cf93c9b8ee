-- ===== src/ArrayMap.antt =====
-- kernel/usb/arraymap.hpp: a map in an array of fixed size, with numbers as keys.
pub mod Laws
mod Tests
use mikan_os.Prelude.{ℕ, List, [], ◌∷◌, Bool, true, false, Option, none, some, ◌==◌, if◌then◌else◌}

-- `opt_k && opt_k.value() == key`.
abbrev pub holds : ℕ → Option ℕ → Bool
holds key none = false
holds key (some k) = k == key

abbrev pub is_free : Option ℕ → Bool
is_free none = true
is_free (some k) = false

module _ {V : Type 0} where
  -- `Get`.
  unfoldable pub get : List (Option ℕ × V) → ℕ → Option V
  get [] key = none
  get ((k, value) ∷ table) key = if holds key k then some value else get table key

  -- `Put`: the first free slot is taken, and without one nothing changes.
  unfoldable pub put : List (Option ℕ × V) → ℕ → V → List (Option ℕ × V)
  put [] key value = []
  put ((k, old) ∷ table) key value =
      if is_free k then (some key, value) ∷ table else (k, old) ∷ put table key value

  -- `Delete`: the first slot with the key is freed, and the value stays in it.
  unfoldable pub delete : List (Option ℕ × V) → ℕ → List (Option ℕ × V)
  delete [] key = []
  delete ((k, value) ∷ table) key =
      if holds key k then (none, value) ∷ table else (k, value) ∷ delete table key
