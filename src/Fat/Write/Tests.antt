-- ===== src/Fat/Write/Tests.antt =====
-- Three bytes, and six, written to a file that has no cluster. Clusters have four bytes, and all are free.
use mikan_os.Prelude.{ℕ, ◌+◌, ◌≡◌, refl, List, [], ◌∷◌, Option, none, some}
use mikan_os.Fat.{
  Volume, bytes, next_cluster, last_cluster, allocate_clusters, extend_cluster, first_free,
  allocate_cluster_chain, load, read, read_loop, skip_clusters,
}
use mikan_os.Fat.Write.{num_cluster, put_bytes, write_place, write_loop, write_start, write}

abbrev volume : Volume
volume = record { bytes_per_cluster = 4; fat = λ c. 0; sector = λ c o. 0 }

-- What Load reads after a Write of so many bytes at the start of a new file.
abbrev written : ℕ → Option (List ℕ)
written len =
    elim (write 9 volume (record { first_cluster = 0; file_size = 0 })
      (record { wr_off = 0; wr_cluster = 0; wr_cluster_off = 0 }) (λ i. 10 + i) len) [
        | none ↦ none
        | some (v, (entry, (fd, total))) ↦ load v entry 100 0
      ]

one_cluster : written 3 ≡ some (10 ∷ 11 ∷ 12 ∷ [])
unfolding write write_start write_loop write_place put_bytes num_cluster allocate_cluster_chain
    first_free extend_cluster last_cluster allocate_clusters next_cluster load read read_loop
    skip_clusters bytes
one_cluster = refl

-- Six bytes become eight: the second round takes as many as the cluster has room for.
two_clusters : written 6 ≡ some (10 ∷ 11 ∷ 12 ∷ 13 ∷ 14 ∷ 15 ∷ 16 ∷ 17 ∷ [])
unfolding write write_start write_loop write_place put_bytes num_cluster allocate_cluster_chain
    first_free extend_cluster last_cluster allocate_clusters next_cluster load read read_loop
    skip_clusters bytes
two_clusters = refl
