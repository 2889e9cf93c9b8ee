-- ===== src/Fat/Directory/Created.antt =====
-- A file that CreateFile made is found by FindFile.
use mikan_os.Prelude.{
  ℕ, zero, suc, ◌+◌, ◌≤◌, ◌≡◌, ◌≢◌, refl, sym, ap, ap₂, ◌∙◌, List, Bool, true, false, ◌&&◌, ◌||◌,
  Option, none, some, ◌==◌, if◌then◌else◌, get_or, arith, ==_no, subst, Bool-cases, Option-cases,
  inl, inr,
}
use mikan_os.Fat.{next_cluster, end_of_clusterchain}
use mikan_os.Fat.Names.{name_is_equal}
use mikan_os.Fat.Directory.{
  NamedEntry, Tree, ScanEnd, hit, not_found, go_on, entries_per_cluster, scan_entries, find_entry,
  put_named, free_entry, allocate_entry,
}

-- Whether a cluster of the chain has a free entry.
unfoldable pub has_free : ℕ → Tree → ℕ → Bool
has_free zero t cluster = false
has_free (suc fuel) t cluster =
    let next = next_cluster t.volume cluster in
    let rest = has_free fuel t next in
    elim (free_entry t cluster (entries_per_cluster t) 0) [
      | some i ↦ true
      | none ↦ if next == end_of_clusterchain then false else rest
    ]

free_entry_later : (t : Tree) (cluster n i j : ℕ) → free_entry t cluster n i ≡ some j → i ≤ j
unfolding free_entry
free_entry_later t cluster zero i j h = absurd (ground arith)
free_entry_later t cluster (suc n) i j h = ground (arith, free_entry_later t cluster n (i + 1) j)

pub put_here :
    (t : Tree) (cluster i : ℕ) (e : NamedEntry) → (put_named t cluster i e).entries cluster i ≡ e
unfolding put_named
put_here t cluster i e =
    let self : (cluster == cluster && i == i) ≡ true = ground arith in rw self refl

pub put_there :
    (t : Tree) (cluster i c j : ℕ) (e : NamedEntry)
    → (c == cluster && j == i) ≡ false
    → (put_named t cluster i e).entries c j ≡ t.entries c j
unfolding put_named
put_there t cluster i c j e h = rw h refl

-- Where the search of a cluster leads to.
abbrev landed : ScanEnd → ℕ → Option (Option (ℕ × ℕ)) → Option (Option (ℕ × ℕ))
landed s cluster rest = elim s as (λ x. Option (Option (ℕ × ℕ))) [
  | hit i ↦ some (some (cluster, i))
  | not_found ↦ some none
  | go_on ↦ rest
]

abbrev is_hit : ScanEnd → Bool
is_hit (hit i) = true
is_hit not_found = false
is_hit go_on = false

landed_miss :
    (s : ScanEnd) (cluster : ℕ) (rest : Option (Option (ℕ × ℕ)))
    → landed s cluster rest ≡ some none
    → is_hit s ≡ false
landed_miss (hit i) cluster rest h = absurd (ground arith)
landed_miss not_found cluster rest h = refl
landed_miss go_on cluster rest h = refl

find_cluster :
    (toupper : ℕ → ℕ) (fuel : ℕ) (t : Tree) (path : List ℕ) (cluster : ℕ)
    → cluster ≢ end_of_clusterchain
    → find_entry toupper (suc fuel) t path cluster
      ≡ landed
          (scan_entries toupper t path cluster (entries_per_cluster t) 0)
          cluster
          (find_entry toupper fuel t path (next_cluster t.volume cluster))
unfolding find_entry
find_cluster toupper fuel t path cluster h =
    rw (find_entry, ==_no cluster end_of_clusterchain h) refl

has_free_next :
    (fuel : ℕ) (t : Tree) (cluster : ℕ)
    → free_entry t cluster (entries_per_cluster t) 0 ≡ none
    → has_free (suc fuel) t cluster ≡ true
    → (next_cluster t.volume cluster ≢ end_of_clusterchain)
      × (has_free fuel t (next_cluster t.volume cluster) ≡ true)
unfolding has_free
has_free_next fuel t cluster full h = (ground (arith, full, h), ground (arith, full, h))

allocate_next :
    (fuel : ℕ) (t : Tree) (cluster : ℕ)
    → free_entry t cluster (entries_per_cluster t) 0 ≡ none
    → next_cluster t.volume cluster ≢ end_of_clusterchain
    → allocate_entry (suc fuel) t cluster ≡ allocate_entry fuel t (next_cluster t.volume cluster)
unfolding allocate_entry
allocate_next fuel t cluster full h =
    rw (allocate_entry, full, ==_no (next_cluster t.volume cluster) end_of_clusterchain h) refl

module _ (toupper : ℕ → ℕ) (t : Tree) (path : List ℕ) (e : ℕ → ℕ → NamedEntry)
    (starts : (c j : ℕ) → get_or (e c j).name 0 0 ≢ 0)
    (equal : (c j : ℕ) → name_is_equal toupper (e c j).name path ≡ true) where
  -- What the search does at one entry.
  abbrev step : NamedEntry → ℕ → ScanEnd → ScanEnd
  step x i rest =
      if get_or x.name 0 0 == 0
      then not_found
      else if name_is_equal toupper x.name path
      then hit i
      else rest

  step_equal : (c i : ℕ) (rest : ScanEnd) → step (e c i) i rest ≡ hit i
  step_equal c i rest = rw (==_no (get_or (e c i).name 0 0) 0 (starts c i), equal c i) refl

  step_miss :
      (x : NamedEntry) (i : ℕ) (old rest : ScanEnd)
      → get_or x.name 0 0 ≢ 0
      → is_hit (step x i old) ≡ false
      → step x i rest ≡ rest
  step_miss x i old rest h miss = ground (arith, h, miss)

  -- In the cluster of the first free entry, the search stops there.
  scan_created :
      (cluster n i j : ℕ)
      → free_entry t cluster n i ≡ some j
      → is_hit (scan_entries toupper t path cluster n i) ≡ false
      → scan_entries toupper (put_named t cluster j (e cluster j)) path cluster n i ≡ hit j
  unfolding free_entry scan_entries
  scan_created cluster zero i j h miss = absurd (ground arith)
  scan_created cluster (suc n) i j h miss =
      let x = t.entries cluster i in
      let first = get_or x.name 0 0 in
      elim (Bool-cases (first == 0 || first == 229)) [
        | inl free ↦
            let here : i ≡ j = ground arith in
            subst
              (λ (m : ℕ).
                scan_entries toupper (put_named t cluster m (e cluster m)) path cluster (suc n) i
                ≡ hit m)
              here
              (let t' = put_named t cluster i (e cluster i) in
                let rest = scan_entries toupper t' path cluster n (i + 1) in
                ap (λ (y : NamedEntry). step y i rest) (put_here t cluster i (e cluster i))
                ∙ step_equal cluster i rest)
        | inr used ↦
            let next : free_entry t cluster n (i + 1) ≡ some j = ground arith in
            let later = free_entry_later t cluster n (i + 1) j next in
            let t' = put_named t cluster j (e cluster j) in
            let rest = scan_entries toupper t' path cluster n (i + 1) in
            let old = scan_entries toupper t path cluster n (i + 1) in
            let nonzero : first ≢ 0 = ground arith in
            let skip = step_miss x i old old nonzero miss in
            let miss' : is_hit old ≡ false = ap is_hit (sym skip) ∙ miss in
            let below = scan_created cluster n (i + 1) j next miss' in
            ap (λ (y : NamedEntry). step y i rest)
              (put_there t cluster j cluster i (e cluster j) (ground (arith, later)))
            ∙ (step_miss x i old rest nonzero miss ∙ below)
      ]

  -- A cluster without a free entry is searched as before.
  scan_full :
      (cluster n i : ℕ)
      → free_entry t cluster n i ≡ none
      → is_hit (scan_entries toupper t path cluster n i) ≡ false
      → scan_entries toupper t path cluster n i ≡ go_on
  unfolding free_entry scan_entries
  scan_full cluster zero i h miss = refl
  scan_full cluster (suc n) i h miss =
      let x = t.entries cluster i in
      let old = scan_entries toupper t path cluster n (i + 1) in
      let next : free_entry t cluster n (i + 1) ≡ none = ground arith in
      let nonzero : get_or x.name 0 0 ≢ 0 = ground arith in
      let skip = step_miss x i old old nonzero miss in
      skip ∙ scan_full cluster n (i + 1) next (ap is_hit (sym skip) ∙ miss)

  scan_other :
      (cluster n i c j : ℕ)
      → (cluster == c) ≡ false
      → scan_entries toupper (put_named t c j (e c j)) path cluster n i
        ≡ scan_entries toupper t path cluster n i
  unfolding scan_entries
  scan_other cluster zero i c j far = refl
  scan_other cluster (suc n) i c j far =
      ap₂ (λ (y : NamedEntry) (rest : ScanEnd). step y i rest)
        (put_there t c j cluster i (e c j) (ground (arith, far)))
        (scan_other cluster n (i + 1) c j far)

  -- The place that AllocateEntry finds, as the search does after the write to it.
  pub find_created :
      (fuel cluster : ℕ)
      → cluster ≢ end_of_clusterchain
      → has_free fuel t cluster ≡ true
      → find_entry toupper fuel t path cluster ≡ some none
      → (c : ℕ) × (j : ℕ) × (allocate_entry fuel t cluster ≡ some ((c, j), t))
        × (free_entry t c (entries_per_cluster t) 0 ≡ some j)
        × (find_entry toupper fuel (put_named t c j (e c j)) path cluster ≡ some (some (c, j)))
  unfolding has_free allocate_entry put_named
  find_created zero cluster far h missing = absurd (ground arith)
  find_created (suc fuel) cluster far h missing =
      let n = entries_per_cluster t in
      let next = next_cluster t.volume cluster in
      let scan = scan_entries toupper t path cluster n 0 in
      let below = find_entry toupper fuel t path next in
      let now = sym (find_cluster toupper fuel t path cluster far) ∙ missing in
      let miss = landed_miss scan cluster below now in
      elim (Option-cases (free_entry t cluster n 0)) [
        | inr (j, free) ↦
            let t' = put_named t cluster j (e cluster j) in
            let later = find_entry toupper fuel t' path next in
            (
              cluster,
              j,
              rw (allocate_entry, free) refl,
              free,
              find_cluster toupper fuel t' path cluster far
                  ∙ ap (λ (s : ScanEnd). landed s cluster later)
                      (scan_created cluster n 0 j free miss),
            )
        | inl full ↦
            let (more, rest) = has_free_next fuel t cluster full h in
            let all : scan ≡ go_on = scan_full cluster n 0 full miss in
            let skip = ap (λ (s : ScanEnd). landed s cluster below) all in
            let (c, j, placed, free, found) = find_created fuel next more rest (sym skip ∙ now) in
            let apart : (cluster == c) ≡ false = ==_no cluster c (λ same.
              let both = ap (λ (x : ℕ). free_entry t x n 0) same in
              let wrong : none ≡ some j = sym full ∙ (both ∙ free) in absurd (ground arith)) in
            let t' = put_named t c j (e c j) in
            let later = find_entry toupper fuel t' path next in
            (
              c,
              j,
              allocate_next fuel t cluster full more ∙ placed,
              free,
              find_cluster toupper fuel t' path cluster far
                  ∙ ap (λ (s : ScanEnd). landed s cluster later)
                      (scan_other cluster n 0 c j apart ∙ all)
                  ∙ found,
            )
      ]
