-- ===== src/Fat.antt =====
-- kernel/fat.hpp and kernel/fat.cpp: cluster chains of the file allocation table and reading files.
-- The volume is memory without bounds, as in C++: the table and the clusters are functions.
pub mod Chain
pub mod Extend
pub mod Allocate
pub mod Read
pub mod Load
pub mod Names
pub mod Write
pub mod Directory
mod Tests
use mikan_os.Prelude.{
  ℕ, zero, suc, ◌+◌, ◌-◌, ◌^◌, ◌%◌, min, List, [], ◌∷◌, ◌++◌, Bool, true, false, not, Option, none,
  some, ltb, leb, ◌==◌, if◌then◌else◌,
}

pub record Volume : Type 0 where
  pub bytes_per_cluster : ℕ
  -- `GetFAT()[cluster]`
  pub fat : ℕ → ℕ
  -- the byte at an offset of a cluster, `GetSectorByCluster<uint8_t>(cluster)[offset]`
  pub sector : ℕ → ℕ → ℕ

-- `kEndOfClusterchain`.
abbrev pub end_of_clusterchain : ℕ
end_of_clusterchain = 268435455

-- `IsEndOfClusterchain`.
abbrev pub is_end_of_clusterchain : ℕ → Bool
is_end_of_clusterchain cluster = leb 268435448 cluster

-- `NextCluster`.
unfoldable pub next_cluster : Volume → ℕ → ℕ
next_cluster v cluster =
    let next = v.fat cluster in if is_end_of_clusterchain next then end_of_clusterchain else next

-- `fat[cluster] = value`, in 32 bits.
abbrev pub set_entry : (ℕ → ℕ) → ℕ → ℕ → ℕ → ℕ
set_entry fat cluster value c = if c == cluster then value % 2 ^ 32 else fat c

-- The first loop of `ExtendCluster`: the end of the chain. `none` means that the fuel ran out.
unfoldable pub last_cluster : ℕ → (ℕ → ℕ) → ℕ → Option ℕ
last_cluster zero fat cluster = none
last_cluster (suc fuel) fat cluster =
    let rest = last_cluster fuel fat (fat cluster) in
    if not (is_end_of_clusterchain (fat cluster)) then rest else some cluster

-- The second loop of `ExtendCluster`, with `n` clusters to go. The source looks at candidates for as
-- long as it takes; `none` means that the fuel ran out.
unfoldable pub allocate_clusters : ℕ → (ℕ → ℕ) → ℕ → ℕ → ℕ → Option (ℕ × (ℕ → ℕ))
allocate_clusters fuel fat current candidate zero = some (current, fat)
allocate_clusters zero fat current candidate (suc n) = none
allocate_clusters (suc fuel) fat current candidate (suc n) =
    let skipped = allocate_clusters fuel fat current (candidate + 1) (suc n) in
    let taken =
      allocate_clusters fuel (set_entry fat current candidate) candidate (candidate + 1) n in
    if not (fat candidate == 0) then skipped else taken

-- `ExtendCluster`: the last cluster of the longer chain.
unfoldable pub extend_cluster : ℕ → Volume → ℕ → ℕ → Option (ℕ × Volume)
extend_cluster fuel v eoc_cluster n = elim (last_cluster fuel v.fat eoc_cluster) [
  | none ↦ none
  | some eoc ↦ elim (allocate_clusters fuel v.fat eoc 2 n) [
    | none ↦ none
    | some (current, fat) ↦
        some (current, record v { fat = set_entry fat current end_of_clusterchain })
  ]
]

-- The loop of `AllocateClusterChain`: the first free cluster.
unfoldable pub first_free : ℕ → (ℕ → ℕ) → ℕ → Option ℕ
first_free zero fat cluster = none
first_free (suc fuel) fat cluster =
    let rest = first_free fuel fat (cluster + 1) in if fat cluster == 0 then some cluster else rest

-- `AllocateClusterChain`.
unfoldable pub allocate_cluster_chain : ℕ → Volume → ℕ → Option (ℕ × Volume)
allocate_cluster_chain fuel v n = elim (first_free fuel v.fat 2) [
  | none ↦ none
  | some first_cluster ↦
      let v' : Volume = record v { fat = set_entry v.fat first_cluster end_of_clusterchain } in
      if ltb 1 n
      then elim (extend_cluster fuel v' first_cluster (n - 1)) [
        | none ↦ none
        | some (last, v'') ↦ some (first_cluster, v'')
      ]
      else some (first_cluster, v')
]

-- The fields of `DirectoryEntry` that reading a file uses; `first_cluster` is `FirstCluster()`.
pub record DirectoryEntry : Type 0 where
  pub first_cluster : ℕ
  pub file_size : ℕ

-- The reading half of `FileDescriptor`.
pub record FileDescriptor : Type 0 where
  pub rd_off : ℕ
  pub rd_cluster : ℕ
  pub rd_cluster_off : ℕ

-- `n` bytes from an offset on, as `memcpy` reads them.
unfoldable pub bytes : (ℕ → ℕ) → ℕ → ℕ → List ℕ
bytes sec off zero = []
bytes sec off (suc n) = sec off ∷ bytes sec (off + 1) n

-- The loop of `Read`, with `len` bytes to go: the bytes, `rd_cluster_` and `rd_cluster_off_`. Every
-- round reads at least one byte where the offset lies in the cluster, so that `len` rounds are enough;
-- `none` means that the fuel ran out.
unfoldable pub read_loop : ℕ → Volume → ℕ → ℕ → ℕ → Option (List ℕ × (ℕ × ℕ))
read_loop fuel v cluster off zero = some ([], (cluster, off))
read_loop zero v cluster off (suc len) = none
read_loop (suc fuel) v cluster off (suc len) =
    let n = min (suc len) (v.bytes_per_cluster - off) in
    let full = off + n == v.bytes_per_cluster in
    let cluster' = if full then next_cluster v cluster else cluster in
    let off' = if full then 0 else off + n in
    elim (read_loop fuel v cluster' off' (suc len - n)) [
      | none ↦ none
      | some (rest, at) ↦ some (bytes (v.sector cluster) off n ++ rest, at)
    ]

-- `Read`: the bytes that go to the buffer. `file_size - rd_off_` wraps.
unfoldable pub read :
    Volume → DirectoryEntry → FileDescriptor → ℕ → Option (List ℕ × FileDescriptor)
read v entry fd len =
    let cluster = if fd.rd_cluster == 0 then entry.first_cluster else fd.rd_cluster in
    let total = min len ((entry.file_size + 2 ^ 64 - fd.rd_off) % 2 ^ 64) in
    elim (read_loop total v cluster fd.rd_cluster_off total) [
      | none ↦ none
      | some (content, (rd_cluster, rd_cluster_off)) ↦ some (
        content,
        record {
          rd_off = (fd.rd_off + total) % 2 ^ 64;
          rd_cluster = rd_cluster;
          rd_cluster_off = rd_cluster_off;
        },
      )
    ]

-- `LoadFile`: the descriptor is new.
pub load_file : Volume → DirectoryEntry → ℕ → Option (List ℕ × FileDescriptor)
load_file v entry len = read v entry (record { rd_off = 0; rd_cluster = 0; rd_cluster_off = 0 }) len

-- The loop of `Load`. Every round takes a cluster's bytes off the offset, so that one round more than
-- the offset is enough; `none` means that the fuel ran out.
unfoldable pub skip_clusters : ℕ → Volume → ℕ → ℕ → Option (ℕ × ℕ)
skip_clusters zero v cluster offset = none
skip_clusters (suc fuel) v cluster offset =
    let rest = skip_clusters fuel v (next_cluster v cluster) (offset - v.bytes_per_cluster) in
    if leb v.bytes_per_cluster offset then rest else some (cluster, offset)

-- `Load`.
unfoldable pub load : Volume → DirectoryEntry → ℕ → ℕ → Option (List ℕ)
load v entry len offset = elim (skip_clusters (suc offset) v entry.first_cluster offset) [
  | none ↦ none
  | some (cluster, off) ↦
      elim (read v entry (record { rd_off = offset; rd_cluster = cluster; rd_cluster_off = off })
        len) [ none ↦ none | some (content, fd) ↦ some content ]
]
