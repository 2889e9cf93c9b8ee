-- ===== src/Fat/Directory.antt =====
-- kernel/fat.cpp: files are looked up in the directories of a volume and created there. A directory is
-- the entries in the clusters of a chain. Loops over a chain have fuel, since a chain may be a circle.
pub mod Created
pub mod Root
mod Tests
use mikan_os.Prelude.{
  ℕ, zero, suc, ◌+◌, ◌/◌, List, [], ◌∷◌, Bool, true, false, not, ◌&&◌, ◌||◌, Option, none, some,
  ◌==◌, ltb, if◌then◌else◌, length, get_or, replicate,
}
use mikan_os.Error.{Code, WithError}
use mikan_os.Fat.{Volume, end_of_clusterchain, next_cluster, extend_cluster}
use mikan_os.Fat.Names.{set_file_name, name_is_equal, next_path_element}

-- `DirectoryEntry`, the fields that have a use.
pub record NamedEntry : Type 0 where
  pub name : List ℕ
  pub attr : ℕ
  pub first_cluster : ℕ
  pub file_size : ℕ

-- `Attribute::kDirectory`.
abbrev pub directory : ℕ
directory = 16

-- A volume with the entries of its directories, by cluster and index, and the root's first cluster.
pub record Tree : Type 0 where
  pub volume : Volume
  pub entries : ℕ → ℕ → NamedEntry
  pub root_cluster : ℕ

-- `bytes_per_cluster / sizeof(DirectoryEntry)`.
abbrev pub entries_per_cluster : Tree → ℕ
entries_per_cluster t = t.volume.bytes_per_cluster / 32

-- How the loop over the entries of a cluster ends: at an entry, at the end of the directory, or behind
-- the last entry of the cluster.
pub data ScanEnd : Type 0 where
  hit : ℕ → ScanEnd
  not_found : ScanEnd
  go_on : ScanEnd

-- That loop in `FindFile`, with `n` entries to go.
unfoldable pub scan_entries : (ℕ → ℕ) → Tree → List ℕ → (cluster n i : ℕ) → ScanEnd
scan_entries toupper t path_elem cluster zero i = go_on
scan_entries toupper t path_elem cluster (suc n) i =
    let rest = scan_entries toupper t path_elem cluster n (i + 1) in
    let name = (t.entries cluster i).name in
    if get_or name 0 0 == 0
    then not_found
    else if name_is_equal toupper name path_elem
    then hit i
    else rest

-- The loop over the clusters of a directory: the place of the entry of a name. The outer `none` means
-- that the fuel ran out.
unfoldable pub find_entry : (ℕ → ℕ) → ℕ → Tree → List ℕ → ℕ → Option (Option (ℕ × ℕ))
find_entry toupper zero t path_elem cluster = none
find_entry toupper (suc fuel) t path_elem cluster =
    let rest = find_entry toupper fuel t path_elem (next_cluster t.volume cluster) in
    let here =
      elim (scan_entries toupper t path_elem cluster (entries_per_cluster t) 0)
        as (λ x. Option (Option (ℕ × ℕ))) [
          | hit i ↦ some (some (cluster, i))
          | not_found ↦ some none
          | go_on ↦ rest
        ] in
    if cluster == end_of_clusterchain then some none else here

-- The start of `FindFile`: the path without a slash in front, and the directory to look in.
unfoldable pub find_start : Tree → List ℕ → ℕ → List ℕ × ℕ
find_start t [] directory_cluster =
    ([], if directory_cluster == 0 then t.root_cluster else directory_cluster)
find_start t (c ∷ cs) directory_cluster =
    if c == 47
    then (cs, t.root_cluster)
    else (c ∷ cs, if directory_cluster == 0 then t.root_cluster else directory_cluster)

-- `next_path == nullptr || next_path[0] == '\0'`.
unfoldable pub is_last : Option (List ℕ) → Bool
is_last none = true
is_last (some []) = true
is_last (some (c ∷ cs)) = false

-- What `FindFile` does with the entry that it finds; `find` looks for the rest of the path in a directory.
-- The Boolean is `post_slash`.
unfoldable pub found_entry :
    (List ℕ → ℕ → Option (Option (ℕ × ℕ) × Bool))
    → Tree
    → Option (List ℕ)
    → Option (ℕ × ℕ)
    → Option (Option (ℕ × ℕ) × Bool)
found_entry find t none none = some (none, false)
found_entry find t (some next_path) none = some (none, true)
found_entry find t none (some at) = some (some at, false)
found_entry find t (some next_path) (some (cluster, i)) =
    let found = t.entries cluster i in
    let below = find next_path found.first_cluster in
    if found.attr == directory && not (is_last (some next_path))
    then below
    else some (some (cluster, i), true)

-- `FindFile`. Every call of itself has a shorter path, so that `n` may be the length of the path and one
-- more.
unfoldable pub find_file :
    (ℕ → ℕ) → (n fuel : ℕ) → Tree → List ℕ → ℕ → Option (Option (ℕ × ℕ) × Bool)
find_file toupper zero fuel t path directory_cluster = none
find_file toupper (suc n) fuel t path directory_cluster =
    let (path', cluster) = find_start t path directory_cluster in
    let (path_elem, next_path) = next_path_element path' in
    elim (find_entry toupper fuel t path_elem cluster) [
      | none ↦ none
      | some found ↦
          found_entry (λ below first. find_file toupper n fuel t below first) t next_path found
    ]

-- A write to an entry.
unfoldable pub put_named : Tree → (cluster i : ℕ) → NamedEntry → Tree
put_named t cluster i e = record t {
  entries = λ c j. if c == cluster && j == i then e else t.entries c j;
}

-- The loop of `AllocateEntry` over the entries of a cluster: one that is free.
unfoldable pub free_entry : Tree → (cluster n i : ℕ) → Option ℕ
free_entry t cluster zero i = none
free_entry t cluster (suc n) i =
    let rest = free_entry t cluster n (i + 1) in
    let first = get_or (t.entries cluster i).name 0 0 in
    if first == 0 || first == 229 then some i else rest

-- An entry of NULs.
abbrev pub empty_entry : NamedEntry
empty_entry = record { name = replicate 11 0; attr = 0; first_cluster = 0; file_size = 0 }

-- The end of `AllocateEntry`: a new cluster for the directory.
unfoldable pub extend_directory : ℕ → Tree → ℕ → Option ((ℕ × ℕ) × Tree)
extend_directory fuel t dir_cluster = elim (extend_cluster fuel t.volume dir_cluster 1) [
  | none ↦ none
  | some (cluster, v) ↦ some (
    (cluster, 0),
    record t {
      volume = v;
      entries = λ c j.
          if c == cluster && ltb j (entries_per_cluster t) then empty_entry else t.entries c j;
    },
  )
]

-- `AllocateEntry`.
unfoldable pub allocate_entry : ℕ → Tree → ℕ → Option ((ℕ × ℕ) × Tree)
allocate_entry zero t dir_cluster = none
allocate_entry (suc fuel) t dir_cluster =
    let next = next_cluster t.volume dir_cluster in
    let rest = allocate_entry fuel t next in
    elim (free_entry t dir_cluster (entries_per_cluster t) 0) [
      | some i ↦ some ((dir_cluster, i), t)
      | none ↦
          if next == end_of_clusterchain then extend_directory (suc fuel) t dir_cluster else rest
    ]

-- `strrchr(path, '/')`: what is before and behind the last slash.
unfoldable pub last_slash : List ℕ → Option (List ℕ × List ℕ)
last_slash [] = none
last_slash (c ∷ cs) = elim (last_slash cs) [
  | some (before, behind) ↦ some (c ∷ before, behind)
  | none ↦ if c == 47 then some ([], cs) else none
]

-- The end of `CreateFile`.
unfoldable pub create_in :
    (ℕ → ℕ) → ℕ → Tree → List ℕ → ℕ → Option (WithError (Option (ℕ × ℕ)) × Tree)
create_in toupper fuel t filename parent_dir_cluster =
    elim (allocate_entry fuel t parent_dir_cluster) [
      | none ↦ none
      | some ((cluster, i), t') ↦
          let dir = t'.entries cluster i in
          some (
            record { value = some (cluster, i); error = Code.success },
            put_named t' cluster i
                (record dir { name = set_file_name toupper filename; file_size = 0 }),
          )
    ]

-- `CreateFile`.
unfoldable pub create_file :
    (ℕ → ℕ) → ℕ → Tree → List ℕ → Option (WithError (Option (ℕ × ℕ)) × Tree)
create_file toupper fuel t path = elim (last_slash path) [
  | none ↦ create_in toupper fuel t path t.root_cluster
  | some (before, []) ↦ some (record { value = none; error = Code.is_directory }, t)
  | some ([], c ∷ cs) ↦ create_in toupper fuel t (c ∷ cs) t.root_cluster
  | some (b ∷ bs, c ∷ cs) ↦ elim (find_file toupper (length (b ∷ bs) + 1) fuel t (b ∷ bs) 0) [
    | none ↦ none
    | some (none, post_slash) ↦ some (record { value = none; error = Code.no_such_entry }, t)
    | some (some (at, i), post_slash) ↦
        create_in toupper fuel t (c ∷ cs) (t.entries at i).first_cluster
  ]
]
