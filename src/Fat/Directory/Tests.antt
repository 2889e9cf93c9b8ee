-- ===== src/Fat/Directory/Tests.antt =====
-- A small directory, and the instance of the theorem about it.
use mikan_os.Prelude.{
  ℕ, ◌-◌, ◌≡◌, refl, [], ◌∷◌, true, false, ◌&&◌, some, none, ◌==◌, leb, replicate, if◌then◌else◌,
  arith,
}
use mikan_os.Error.{Code}
use mikan_os.Fat.{next_cluster, end_of_clusterchain}
use mikan_os.Fat.Names.{fill_name83, same_bytes, name_is_equal, next_path_element}
use mikan_os.Fat.Names.Padded.{IsPlain, joined}
use mikan_os.Fat.Directory.{
  Tree, scan_entries, find_entry, find_start, found_entry, find_file, free_entry, create_file,
}
use mikan_os.Fat.Directory.Created.{has_free}
use mikan_os.Fat.Directory.Root.{IsCreated, create_file-find_file}

-- The root directory is in the clusters 2 and 3, with two entries each. The first three are in use, and
-- the last was deleted.
abbrev root : Tree
root = record {
  volume = record {
    bytes_per_cluster = 64;
    fat = λ c. if c == 2 then 3 else end_of_clusterchain;
    sector = λ c j. 0;
  };
  entries = λ c j. record {
    name = (if c == 3 && j == 1 then 229 else 88) ∷ replicate 10 32;
    attr = 32;
    first_cluster = 9;
    file_size = 5;
  };
  root_cluster = 2;
}

abbrev toupper : ℕ → ℕ
toupper c = if leb 97 c && leb c 122 then c - 32 else c

toupper-IsPlain : (c : ℕ) → IsPlain (c ∷ []) → IsPlain (toupper c ∷ [])
toupper-IsPlain c ((z, s, d), p) = ((ground arith, ground arith, ground arith), tt)

one_deleted : has_free 3 root 2 ≡ true
unfolding has_free free_entry next_cluster
one_deleted = refl

-- No `ab.c` is there.
ab_missing : find_file toupper 1 3 root (joined (97 ∷ 98 ∷ []) (99 ∷ [])) 0 ≡ some (none, false)
unfolding find_file found_entry find_entry find_start scan_entries next_cluster next_path_element
    name_is_equal fill_name83 same_bytes joined
ab_missing = refl

create_file-find_file_example :
    (c : ℕ) × (i : ℕ) × (t' : Tree) × (create_file toupper 3 root (joined (97 ∷ 98 ∷ []) (99 ∷ []))
      ≡ some (record { value = some (c, i); error = Code.success }, t'))
    × IsCreated toupper (joined (97 ∷ 98 ∷ []) (99 ∷ [])) c i root t'
    × (find_file toupper 1 3 t' (joined (97 ∷ 98 ∷ []) (99 ∷ [])) 0 ≡ some (some (c, i), false))
unfolding joined
create_file-find_file_example =
    create_file-find_file toupper (97 ∷ 98 ∷ []) (99 ∷ []) 0 3 root toupper-IsPlain (omega arith)
      (omega arith) (omega arith) (omega arith) (omega arith) (omega arith) (omega arith)
      one_deleted ab_missing
