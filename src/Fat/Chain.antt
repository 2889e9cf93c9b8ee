-- ===== src/Fat/Chain.antt =====
-- Cluster chains, and the free clusters that a search meets.
use mikan_os.Prelude.{
  ℕ, zero, suc, ◌+◌, ◌≤◌, ◌<◌, ◌≡◌, ◌≢◌, ◌⊎◌, refl, ap, List, [], ◌∷◌, Bool, true, false, some,
  length, ◌==◌, ◌||◌, if◌then◌else◌, arith,
}
use mikan_os.Fat.{end_of_clusterchain, is_end_of_clusterchain, set_entry, last_cluster}

-- The clusters form a chain from the first one to an end mark; the numbers of the later ones are at
-- least 2 and below the marks.
abbrev pub IsChain : (ℕ → ℕ) → ℕ → List ℕ → Type 0
IsChain fat c [] = is_end_of_clusterchain (fat c) ≡ true
IsChain fat c (d ∷ ds) = (fat c ≡ d) × (2 ≤ d) × (d < 268435448) × IsChain fat d ds

abbrev pub last_of : ℕ → List ℕ → ℕ
last_of c [] = c
last_of c (d ∷ ds) = last_of d ds

abbrev pub elem : ℕ → List ℕ → Bool
elem x [] = false
elem x (y ∷ ys) = (x == y) || elem x ys

-- The first `n` free clusters from `c` on, where the search looks at `fuel` clusters.
unfoldable pub free_clusters : (ℕ → ℕ) → ℕ → ℕ → ℕ → List ℕ
free_clusters fat c zero n = []
free_clusters fat c (suc fuel) zero = []
free_clusters fat c (suc fuel) (suc n) =
    if fat c == 0
    then c ∷ free_clusters fat (c + 1) fuel n
    else free_clusters fat (c + 1) fuel (suc n)

-- The table after `ds` is linked behind `c`.
unfoldable pub chained : (ℕ → ℕ) → ℕ → List ℕ → ℕ → ℕ
chained fat c [] = set_entry fat c end_of_clusterchain
chained fat c (d ∷ ds) = chained (set_entry fat c d) d ds

pub last_cluster-IsChain :
    (fuel : ℕ) (fat : ℕ → ℕ) (c : ℕ) (cs : List ℕ)
    → length cs < fuel
    → IsChain fat c cs
    → last_cluster fuel fat c ≡ some (last_of c cs)
unfolding last_cluster
last_cluster-IsChain zero fat c cs h chain = elim h [ ]
last_cluster-IsChain (suc fuel) fat c [] h chain = rw chain refl
last_cluster-IsChain (suc fuel) fat c (d ∷ cs) h (e, small, big, chain) =
    ground (arith, last_cluster-IsChain fuel fat d cs)

-- What the search finds is free and lies from `c` on.
pub free_clusters-free :
    (fat : ℕ → ℕ) (c fuel n x : ℕ)
    → elem x (free_clusters fat c fuel n) ≡ true
    → (fat x ≡ 0) × (c ≤ x) × (x < c + fuel)
unfolding free_clusters
free_clusters-free fat c zero n x h = ground arith
free_clusters-free fat c (suc fuel) zero x h = ground arith
free_clusters-free fat c (suc fuel) (suc n) x h = ground (
  arith,
  ap fat,
  free_clusters-free fat (c + 1) fuel n x,
  free_clusters-free fat (c + 1) fuel (suc n) x,
)

-- A write to a cluster that is not among the candidates, or neither was nor becomes free, does not
-- change what the search finds.
pub free_clusters-set_entry :
    (fat : ℕ → ℕ) (c fuel n x value : ℕ)
    → (x < c) ⊎ ((fat x ≢ 0) × (0 < value) × (value < 268435456))
    → free_clusters (set_entry fat x value) c fuel n ≡ free_clusters fat c fuel n
unfolding free_clusters
free_clusters-set_entry fat c zero n x value h = refl
free_clusters-set_entry fat c (suc fuel) zero x value h = refl
free_clusters-set_entry fat c (suc fuel) (suc n) x value h = ground (
  arith,
  ap fat,
  free_clusters-set_entry fat (c + 1) fuel n x value,
  free_clusters-set_entry fat (c + 1) fuel (suc n) x value,
)

-- Clusters other than those that are linked keep their entries.
pub chained-other :
    (fat : ℕ → ℕ) (c : ℕ) (ds : List ℕ) (x : ℕ)
    → x ≢ c
    → elem x ds ≡ false
    → chained fat c ds x ≡ fat x
unfolding chained
chained-other fat c [] x h k = ground arith
chained-other fat c (d ∷ ds) x h k = ground (arith, chained-other (set_entry fat c d) d ds x)
