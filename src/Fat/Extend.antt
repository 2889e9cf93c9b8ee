-- ===== src/Fat/Extend.antt =====
-- ExtendCluster and AllocateClusterChain against the chains of the table.
use mikan_os.Prelude.{
  ℕ, zero, suc, ◌+◌, ◌≤◌, ◌<◌, ◌≡◌, ◌≢◌, ◌⊎◌, refl, ◌∙◌, ap, sym, subst, List, [], ◌∷◌, ◌++◌, true,
  false, some, length, ◌==◌, arith, Bool-cases, inl, inr,
}
use mikan_os.Fat.{
  Volume, end_of_clusterchain, is_end_of_clusterchain, set_entry, last_cluster, allocate_clusters,
  extend_cluster,
}
use mikan_os.Fat.Chain.{
  IsChain, last_of, elem, free_clusters, chained, last_cluster-IsChain, free_clusters-free,
  free_clusters-set_entry, chained-other,
}

-- Ascending from `lo` on, and below the end marks.
abbrev IsFresh : ℕ → List ℕ → Type 0
IsFresh lo [] = Unit {0}
IsFresh lo (d ∷ ds) = (lo ≤ d) × (d < 268435448) × IsFresh (d + 1) ds

IsFresh-weaken : (lo lo' : ℕ) (ds : List ℕ) → lo' ≤ lo → IsFresh lo ds → IsFresh lo' ds
IsFresh-weaken lo lo' [] h f = tt
IsFresh-weaken lo lo' (d ∷ ds) h (a, b, rest) = (omega arith, b, rest)

free_clusters-IsFresh :
    (fat : ℕ → ℕ) (c fuel n : ℕ) → c + fuel ≤ 268435448 → IsFresh c (free_clusters fat c fuel n)
unfolding free_clusters
free_clusters-IsFresh fat c zero n h = tt
free_clusters-IsFresh fat c (suc fuel) zero h = tt
free_clusters-IsFresh fat c (suc fuel) (suc n) h = elim (Bool-cases (fat c == 0)) [
  | inl free ↦
      rw free (omega arith, omega arith, free_clusters-IsFresh fat (c + 1) fuel n (omega arith))
  | inr used ↦ rw used (
      IsFresh-weaken (c + 1) c _ (omega arith)
        (free_clusters-IsFresh fat (c + 1) fuel (suc n) (omega arith)))
]

elem-IsFresh : (x lo : ℕ) (ds : List ℕ) → x < lo → IsFresh lo ds → elem x ds ≡ false
elem-IsFresh x lo [] h f = refl
elem-IsFresh x lo (d ∷ ds) h f = ground (arith, elem-IsFresh x (d + 1) ds)

-- The table with `ds` linked behind `c`, before the end is marked.
linked : (ℕ → ℕ) → ℕ → List ℕ → ℕ → ℕ
linked fat c [] = fat
linked fat c (d ∷ ds) = linked (set_entry fat c d) d ds

set_entry-linked :
    (fat : ℕ → ℕ) (c : ℕ) (ds : List ℕ)
    → set_entry (linked fat c ds) (last_of c ds) end_of_clusterchain ≡ chained fat c ds
unfolding linked chained
set_entry-linked fat c [] = refl
set_entry-linked fat c (d ∷ ds) = set_entry-linked (set_entry fat c d) d ds

allocate_clusters-linked :
    (fuel : ℕ) (fat : ℕ → ℕ) (current c n : ℕ)
    → (current < c) ⊎ (fat current ≢ 0)
    → 2 ≤ c
    → c + fuel ≤ 268435448
    → length (free_clusters fat c fuel n) ≡ n
    → allocate_clusters fuel fat current c n
      ≡ some (
        last_of current (free_clusters fat c fuel n),
        linked fat current (free_clusters fat c fuel n),
      )
unfolding allocate_clusters free_clusters linked
allocate_clusters-linked zero fat current c zero o low high enough = refl
allocate_clusters-linked zero fat current c (suc n) o low high enough =
    absurd (omega (arith, enough))
allocate_clusters-linked (suc fuel) fat current c zero o low high enough = refl
allocate_clusters-linked (suc fuel) fat current c (suc n) o low high enough =
    let same : free_clusters (set_entry fat current c) (c + 1) fuel n
        ≡ free_clusters fat (c + 1) fuel n =
      free_clusters-set_entry fat (c + 1) fuel n current c (ground arith) in
    elim (Bool-cases (fat c == 0)) [
      | inl free ↦ rw free (
          subst
            (λ ds.
              allocate_clusters fuel (set_entry fat current c) c (c + 1) n
              ≡ some (last_of c ds, linked (set_entry fat current c) c ds))
            same
            (allocate_clusters-linked fuel (set_entry fat current c) c (c + 1) n (inl (omega arith))
              (omega arith) (omega arith) (ap length same ∙ ground arith)))
      | inr used ↦ rw used (
          allocate_clusters-linked fuel fat current (c + 1) (suc n) (ground arith) (omega arith)
            (omega arith) (ground arith))
    ]

pub chained-IsChain :
    (fat : ℕ → ℕ) (c lo : ℕ) (ds : List ℕ)
    → elem c ds ≡ false
    → 2 ≤ lo
    → IsFresh lo ds
    → IsChain (chained fat c ds) c ds
unfolding chained
chained-IsChain fat c lo [] h low f = ground arith
chained-IsChain fat c lo (d ∷ ds) h low (a, b, f) = (
  chained-other (set_entry fat c d) d ds c (ground arith) (ground arith) ∙ ground arith,
  omega arith,
  b,
  chained-IsChain (set_entry fat c d) d (d + 1) ds (elem-IsFresh d (d + 1) ds (omega arith) f)
      (omega arith) f,
)

pub last_of-IsChain :
    (fat : ℕ → ℕ) (c : ℕ) (cs : List ℕ)
    → IsChain fat c cs
    → is_end_of_clusterchain (fat (last_of c cs)) ≡ true
last_of-IsChain fat c [] chain = chain
last_of-IsChain fat c (d ∷ cs) (e, low, high, chain) = last_of-IsChain fat d cs chain

module _ (fat F : ℕ → ℕ) (l : ℕ) (marked : is_end_of_clusterchain (fat l) ≡ true)
    (agree : (x : ℕ) → x ≢ l → fat x ≢ 0 → F x ≡ fat x) where
  not_last : (x d : ℕ) → fat x ≡ d → d < 268435448 → x ≢ l
  not_last x d e h k = ground (arith, ap fat)

  -- A chain with another end is not touched.
  IsChain-kept : (d : ℕ) (ds : List ℕ) → IsChain fat d ds → last_of d ds ≢ l → IsChain F d ds
  IsChain-kept d [] chain h = ground (arith, agree d)
  IsChain-kept d (x ∷ ds) (e, low, high, chain) h =
      (agree d (not_last d x e high) (λ z. omega arith) ∙ e, low, high, IsChain-kept x ds chain h)

  IsChain-append :
      (c : ℕ) (cs new : List ℕ)
      → IsChain fat c cs
      → last_of c cs ≡ l
      → IsChain F l new
      → IsChain F c (cs ++ new)
  IsChain-append c [] new chain e rest = subst (λ x. IsChain F x new) (sym e) rest
  IsChain-append c (d ∷ cs) new (k, low, high, chain) e rest = (
    agree c (not_last c d k high) (λ z. omega arith) ∙ k,
    low,
    high,
    IsChain-append d cs new chain e rest,
  )

-- The new table after `ExtendCluster` of the chain `c ∷ cs` by `n` clusters.
pub extended : ℕ → Volume → ℕ → List ℕ → ℕ → Volume
extended fuel v c cs n = record v {
  fat = chained v.fat (last_of c cs) (free_clusters v.fat 2 fuel n);
}

extend_of_loops :
    (fuel : ℕ) (v : Volume) (c n l current : ℕ) (fat F : ℕ → ℕ)
    → last_cluster fuel v.fat c ≡ some l
    → allocate_clusters fuel v.fat l 2 n ≡ some (current, fat)
    → set_entry fat current end_of_clusterchain ≡ F
    → extend_cluster fuel v c n ≡ some (current, record v { fat = F })
unfolding extend_cluster
extend_of_loops fuel v c n l current fat F h k e = rw (h, extend_cluster, k, e) refl

module _ (fuel : ℕ) (v : Volume) (c : ℕ) (cs : List ℕ) (n : ℕ) (chain : IsChain v.fat c cs)
    (walks : length cs < fuel) (bounded : fuel + 2 ≤ 268435448)
    (enough : length (free_clusters v.fat 2 fuel n) ≡ n) where
  abbrev added : List ℕ
  added = free_clusters v.fat 2 fuel n

  used-added : (x : ℕ) → v.fat x ≢ 0 → elem x added ≡ false
  used-added x h = elim (Bool-cases (elem x added)) [
    | inl e ↦ absurd (h (free_clusters-free v.fat 2 fuel n x e).0)
    | inr e ↦ e
  ]

  marked : is_end_of_clusterchain (v.fat (last_of c cs)) ≡ true
  marked = last_of-IsChain v.fat c cs chain

  agree : (x : ℕ) → x ≢ last_of c cs → v.fat x ≢ 0 → chained v.fat (last_of c cs) added x ≡ v.fat x
  agree x h k = chained-other v.fat (last_of c cs) added x h (used-added x k)

  -- For the chain c, cs and with the first n free clusters in reach of the search, below the end
  -- marks, `ExtendCluster` ends: it returns the last cluster of the longer chain, the chain is c, cs
  -- and those free clusters in order, and every chain with another end stays a chain.
  pub extend_cluster-IsChain :
      (extend_cluster fuel v c n ≡ some (last_of (last_of c cs) added, extended fuel v c cs n))
      × IsChain (extended fuel v c cs n).fat c (cs ++ added)
      × ((d : ℕ) (ds : List ℕ)
          → IsChain v.fat d ds
          → last_of d ds ≢ last_of c cs
          → IsChain (extended fuel v c cs n).fat d ds)
  unfolding extended
  extend_cluster-IsChain = (
    extend_of_loops fuel v c n _ _ _ _ (last_cluster-IsChain fuel v.fat c cs walks chain)
        (allocate_clusters-linked fuel v.fat (last_of c cs) 2 n (inr (ground (arith, marked)))
          (omega arith) (omega arith) enough)
        (set_entry-linked v.fat (last_of c cs) added),
    IsChain-append v.fat _ (last_of c cs) marked agree c cs added chain refl (
        chained-IsChain v.fat (last_of c cs) 2 added (used-added _ (ground (arith, marked)))
          (omega arith) (free_clusters-IsFresh v.fat 2 fuel n (omega arith))),
    IsChain-kept v.fat _ (last_of c cs) marked agree,
  )
