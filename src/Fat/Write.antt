-- ===== src/Fat/Write.antt =====
-- kernel/fat.cpp: the writing half of FileDescriptor. The bytes to write are read from memory without
-- bounds, as in C++.
mod Tests
use mikan_os.Prelude.{
  ℕ, zero, suc, ◌+◌, ◌-◌, ◌/◌, ◌%◌, ◌^◌, min, ◌&&◌, Option, none, some, leb, ltb, ◌==◌,
  if◌then◌else◌,
}
use mikan_os.Fat.{
  Volume, DirectoryEntry, end_of_clusterchain, next_cluster, extend_cluster, allocate_cluster_chain,
}

-- `wr_off_`, `wr_cluster_` and `wr_cluster_off_`.
pub record WriteHalf : Type 0 where
  pub wr_off : ℕ
  pub wr_cluster : ℕ
  pub wr_cluster_off : ℕ

-- The lambda `num_cluster`.
unfoldable pub num_cluster : Volume → ℕ → ℕ
num_cluster v bytes = (bytes + v.bytes_per_cluster - 1) / v.bytes_per_cluster

-- `memcpy` of `n` bytes, from the place `total` of the buffer on, to a place of a cluster.
unfoldable pub put_bytes : Volume → (ℕ → ℕ) → (cluster off total n : ℕ) → Volume
put_bytes v buf cluster off total n = record v {
  sector = λ c o.
      if c == cluster && leb off o && ltb o (off + n)
      then buf (total + (o - off))
      else v.sector c o;
}

-- The start of a round of `Write`: at the end of a cluster it goes to the next one, or to a new one.
-- `none` means that the fuel of ExtendCluster ran out.
unfoldable pub write_place : ℕ → Volume → (cluster off left : ℕ) → Option (Volume × (ℕ × ℕ))
write_place fuel v cluster off left =
    let next = next_cluster v cluster in
    let longer =
      elim (extend_cluster fuel v cluster (num_cluster v left))
        as (λ x. Option (Volume × (ℕ × ℕ))) [
          | none ↦ none
          | some (last, v') ↦ some (v', (last, 0))
        ] in
    if off == v.bytes_per_cluster
    then if next == end_of_clusterchain then longer else some (v, (next, 0))
    else some (v, (cluster, off))

-- The loop of `Write`: the bytes that it wrote, and where it stands. Every round takes at least one byte
-- where a cluster has room for one, so that the length and one more are enough rounds.
unfoldable pub write_loop :
    (rounds fuel : ℕ)
    → Volume
    → (ℕ → ℕ)
    → (cluster off total len : ℕ) → Option (Volume × (ℕ × (ℕ × ℕ)))
write_loop zero fuel v buf cluster off total len = none
write_loop (suc rounds) fuel v buf cluster off total len =
    let round =
      elim (write_place fuel v cluster off (len - total))
        as (λ x. Option (Volume × (ℕ × (ℕ × ℕ)))) [
          | none ↦ none
          | some (v', (cluster', off')) ↦
              let n = min len (v.bytes_per_cluster - off') in
              write_loop rounds fuel (put_bytes v' buf cluster' off' total n) buf cluster'
                (off' + n) (total + n) len
        ] in
    if ltb total len then round else some (v, (total, (cluster, off)))

-- The first cluster to write to, and the entry, which gets one if it has none.
unfoldable pub write_start :
    ℕ → Volume → DirectoryEntry → (wr_cluster len : ℕ) → Option (Volume × (DirectoryEntry × ℕ))
write_start fuel v entry wr_cluster len =
    let allocated =
      elim (allocate_cluster_chain fuel v (num_cluster v len))
        as (λ x. Option (Volume × (DirectoryEntry × ℕ))) [
          | none ↦ none
          | some (first, v') ↦ some (v', (record entry { first_cluster = first % 2 ^ 32 }, first))
        ] in
    if wr_cluster == 0
    then if entry.first_cluster == 0 then allocated else some (v, (entry, entry.first_cluster))
    else some (v, (entry, wr_cluster))

-- `Write`: the volume, the entry, the descriptor and the number of bytes.
unfoldable pub write :
    ℕ
    → Volume
    → DirectoryEntry
    → WriteHalf
    → (ℕ → ℕ)
    → (len : ℕ) → Option (Volume × (DirectoryEntry × (WriteHalf × ℕ)))
write fuel v entry fd buf len = elim (write_start fuel v entry fd.wr_cluster len) [
  | none ↦ none
  | some (v', (entry', cluster)) ↦
      elim (write_loop (suc len) fuel v' buf cluster fd.wr_cluster_off 0 len) [
        | none ↦ none
        | some (v'', (total, (wr_cluster, wr_cluster_off))) ↦
            let wr_off = (fd.wr_off + total) % 2 ^ 64 in
            some (
              v'',
              (
                record entry' { file_size = wr_off % 2 ^ 32 },
                (
                  record {
                    wr_off = wr_off;
                    wr_cluster = wr_cluster;
                    wr_cluster_off = wr_cluster_off;
                  },
                  total,
                ),
              ),
            )
      ]
]
