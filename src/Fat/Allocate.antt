-- ===== src/Fat/Allocate.antt =====
-- AllocateClusterChain: a new chain of the first free clusters.
use mikan_os.Prelude.{
  ℕ, zero, suc, ◌+◌, ◌-◌, ◌≤◌, ◌<◌, ◌≡◌, ◌≢◌, refl, ◌∙◌, ap, sym, subst, List, [], ◌∷◌, some,
  length, arith, lt→ltb,
}
use mikan_os.Fat.{
  Volume, end_of_clusterchain, set_entry, extend_cluster, first_free, allocate_cluster_chain,
}
use mikan_os.Fat.Chain.{IsChain, last_of, free_clusters, free_clusters-set_entry}
use mikan_os.Fat.Extend.{extended, last_of-IsChain, extend_cluster-IsChain}

free_clusters-none : (fat : ℕ → ℕ) (c fuel : ℕ) → free_clusters fat c fuel 0 ≡ []
unfolding free_clusters
free_clusters-none fat c zero = refl
free_clusters-none fat c (suc fuel) = refl

free_clusters-first :
    (fat : ℕ → ℕ) (c fuel n f : ℕ) (ds : List ℕ)
    → free_clusters fat c fuel (suc n) ≡ f ∷ ds
    → (first_free fuel fat c ≡ some f)
      × (fat f ≡ 0)
      × (c ≤ f)
      × (free_clusters (set_entry fat f end_of_clusterchain) c fuel n ≡ ds)
unfolding free_clusters first_free
free_clusters-first fat c zero n f ds e = ground arith
free_clusters-first fat c (suc fuel) zero f ds e = ground (
  arith,
  ap fat,
  free_clusters-none fat (c + 1) fuel,
  free_clusters-none (set_entry fat f end_of_clusterchain) (c + 1) fuel,
  free_clusters-first fat (c + 1) fuel zero f ds,
)
free_clusters-first fat c (suc fuel) (suc n) f ds e = ground (
  arith,
  ap fat,
  free_clusters-first fat (c + 1) fuel (suc n) f ds,
  free_clusters-set_entry fat (c + 1) fuel (suc n) f end_of_clusterchain,
)

IsChain-agree :
    (fat F : ℕ → ℕ) (c : ℕ) (cs : List ℕ)
    → ((x : ℕ) → fat x ≢ 0 → F x ≡ fat x)
    → IsChain fat c cs
    → IsChain F c cs
IsChain-agree fat F c [] agree chain = ground (arith, agree c)
IsChain-agree fat F c (d ∷ cs) agree (e, low, high, chain) =
    (agree c (λ z. omega arith) ∙ e, low, high, IsChain-agree fat F d cs agree chain)

-- The table holds one more chain, `f ∷ ds`, and all the others.
pub record IsAllocated (v v' : Volume) (f : ℕ) (ds : List ℕ) : Type 0 where
  pub allocated : IsChain v'.fat f ds
  pub kept : (c : ℕ) (cs : List ℕ) → IsChain v.fat c cs → IsChain v'.fat c cs

-- The volume after the first cluster is taken.
abbrev started : Volume → ℕ → Volume
started v f = record v { fat = set_entry v.fat f end_of_clusterchain }

allocate_of_first :
    (fuel : ℕ) (v : Volume) (f : ℕ)
    → first_free fuel v.fat 2 ≡ some f
    → allocate_cluster_chain fuel v 1 ≡ some (f, started v f)
unfolding allocate_cluster_chain
allocate_of_first fuel v f h = rw (h, allocate_cluster_chain) refl

allocate_of_loops :
    (fuel : ℕ) (v : Volume) (f n last : ℕ) (v' : Volume)
    → first_free fuel v.fat 2 ≡ some f
    → extend_cluster fuel (started v f) f (suc n) ≡ some (last, v')
    → allocate_cluster_chain fuel v (suc (suc n)) ≡ some (f, v')
unfolding allocate_cluster_chain
allocate_of_loops fuel v f n last v' h k =
    let one_less : suc (suc n) - 1 ≡ suc n = omega arith in
    rw (h, allocate_cluster_chain, lt→ltb 1 (suc (suc n)) (omega arith), one_less, k) refl

first_free-pos : (fuel : ℕ) (fat : ℕ → ℕ) (c f : ℕ) → first_free fuel fat c ≡ some f → 0 < fuel
unfolding first_free
first_free-pos zero fat c f h = ground arith
first_free-pos (suc fuel) fat c f h = omega arith

started-IsAllocated : (v : Volume) (f : ℕ) → v.fat f ≡ 0 → IsAllocated v (started v f) f []
started-IsAllocated v f free = record {
  allocated = ground arith;
  kept = λ c cs chain.
      IsChain-agree v.fat (started v f).fat c cs (λ x h. ground (arith, ap v.fat)) chain;
}

-- The end of a chain is not free.
last-ne-free :
    (v : Volume) (f c : ℕ) (cs : List ℕ) → v.fat f ≡ 0 → IsChain v.fat c cs → last_of c cs ≢ f
last-ne-free v f c cs free chain e =
    let marked = last_of-IsChain v.fat c cs chain in ground (arith, ap v.fat)

-- With the first n + 1 free clusters in reach of the search, below the end marks,
-- `AllocateClusterChain` of n + 1 ends: it returns the first of them, they are a chain in order, and
-- every chain of the table is still one.
pub allocate_cluster_chain-IsAllocated :
    (fuel : ℕ) (v : Volume) (n f : ℕ) (ds : List ℕ)
    → fuel + 2 ≤ 268435448
    → free_clusters v.fat 2 fuel (suc n) ≡ f ∷ ds
    → length ds ≡ n
    → (v' : Volume) × (allocate_cluster_chain fuel v (suc n) ≡ some (f, v')) × IsAllocated v v' f ds
allocate_cluster_chain-IsAllocated fuel v zero f ds bounded e enough =
    let (found, free, low, rest) = free_clusters-first v.fat 2 fuel 0 f ds e in
    (
      started v f,
      allocate_of_first fuel v f found,
      subst (IsAllocated v (started v f) f)
          (sym (free_clusters-none (started v f).fat 2 fuel) ∙ rest) (started-IsAllocated v f free),
    )
allocate_cluster_chain-IsAllocated fuel v (suc n) f ds bounded e enough =
    let (found, free, low, rest) = free_clusters-first v.fat 2 fuel (suc n) f ds e in
    let first = started-IsAllocated v f free in
    let (ends, chain, others) =
      extend_cluster-IsChain fuel (started v f) f [] (suc n) first.allocated
        (first_free-pos fuel v.fat 2 f found) bounded (ap length rest ∙ enough) in
    (
      extended fuel (started v f) f [] (suc n),
      allocate_of_loops fuel v f n _ _ found ends,
      record {
        allocated = subst (IsChain _ f) rest chain;
        kept = λ c cs h. others c cs (first.kept c cs h) (last-ne-free v f c cs free h);
      },
    )
