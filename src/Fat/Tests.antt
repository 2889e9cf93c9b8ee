-- ===== src/Fat/Tests.antt =====
-- A small volume, and the instances of the theorems.
use mikan_os.Prelude.{ℕ, ◌*◌, ◌≡◌, ◌≢◌, refl, List, [], ◌∷◌, some, ◌==◌, ◌||◌, if◌then◌else◌, arith}
use mikan_os.Fat.{Volume, end_of_clusterchain, extend_cluster, allocate_cluster_chain}
use mikan_os.Fat.{DirectoryEntry, bytes, load}
use mikan_os.Fat.Read.{content}
use mikan_os.Fat.Load.{IsFile, load-content}
use mikan_os.Fat.Chain.{IsChain, last_of, free_clusters}
use mikan_os.Fat.Extend.{extended, extend_cluster-IsChain}
use mikan_os.Fat.Allocate.{IsAllocated, allocate_cluster_chain-IsAllocated}

-- A file in the clusters 2 and 4, another one in 5; the other clusters are free.
abbrev table : ℕ → ℕ
table c = if c == 2 then 4 else if (c == 4) || (c == 5) then end_of_clusterchain else 0

abbrev volume : Volume
volume = record { bytes_per_cluster = 4; fat = table; sector = λ cluster offset. 10 * cluster }

free_two : free_clusters table 2 8 2 ≡ 3 ∷ 6 ∷ []
unfolding free_clusters
free_two = refl

extend_cluster-IsChain_example :
    (extend_cluster 8 volume 2 2
      ≡ some (last_of 4 (free_clusters table 2 8 2), extended 8 volume 2 (4 ∷ []) 2))
    × IsChain (extended 8 volume 2 (4 ∷ []) 2).fat 2 (4 ∷ free_clusters table 2 8 2)
    × ((d : ℕ) (ds : List ℕ)
        → IsChain table d ds
        → last_of d ds ≢ 4
        → IsChain (extended 8 volume 2 (4 ∷ []) 2).fat d ds)
unfolding free_clusters
extend_cluster-IsChain_example =
    extend_cluster-IsChain 8 volume 2 (4 ∷ []) 2 (refl, omega arith, omega arith, refl)
      (omega arith) (omega arith) refl

allocate_cluster_chain-IsAllocated_example :
    (v' : Volume) × (allocate_cluster_chain 8 volume 2 ≡ some (3, v'))
    × IsAllocated volume v' 3 (6 ∷ [])
allocate_cluster_chain-IsAllocated_example =
    allocate_cluster_chain-IsAllocated 8 volume 1 3 (6 ∷ []) (omega arith) free_two refl

abbrev entry : DirectoryEntry
entry = record { first_cluster = 2; file_size = 7 }

entry-IsFile : IsFile volume entry (4 ∷ [])
entry-IsFile = record {
  chain = (refl, omega arith, omega arith, refl);
  used = omega arith;
  room = omega arith;
  bounded = omega arith;
  nonempty = omega arith;
}

load-content_example : load volume entry 10 5 ≡ some (40 ∷ 40 ∷ [])
unfolding content bytes
load-content_example = load-content volume entry (4 ∷ []) 10 5 entry-IsFile (omega arith)
