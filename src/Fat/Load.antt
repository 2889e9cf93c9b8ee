-- ===== src/Fat/Load.antt =====
-- Load and LoadFile against the bytes of the file.
use mikan_os.Prelude.{
  ℕ, zero, suc, ◌+◌, ◌-◌, ◌*◌, ◌^◌, ◌%◌, ◌≤◌, ◌<◌, min, ◌≡◌, refl, ◌∙◌, sym, subst, List, [], ◌∷◌,
  some, length, take, drop, leb, ◌==◌, if◌then◌else◌, arith, Bool-cases, inl, inr, ==_no,
}
use mikan_os.Fat.{
  Volume, DirectoryEntry, FileDescriptor, next_cluster, read_loop, read, skip_clusters, load,
}
use mikan_os.Fat.Chain.{IsChain}
use mikan_os.Fat.Read.{content, drop-bytes_all, read_loop-content}

-- The entry is that of a file whose clusters are `c ∷ cs`, with room for its size.
pub record IsFile (v : Volume) (entry : DirectoryEntry) (cs : List ℕ) : Type 0 where
  pub chain : IsChain v.fat entry.first_cluster cs
  pub used : 2 ≤ entry.first_cluster
  pub room : entry.file_size ≤ length (entry.first_cluster ∷ cs) * v.bytes_per_cluster
  pub bounded : entry.file_size < 2 ^ 32
  pub nonempty : 0 < v.bytes_per_cluster

-- Where the bytes from `offset` on stand.
record IsPlace (v : Volume) (c : ℕ) (cs : List ℕ) (offset c' off : ℕ) (cs' : List ℕ) : Type 0 where
  inside : off < v.bytes_per_cluster
  chain : IsChain v.fat c' cs'
  used : 2 ≤ c'
  same : drop offset (content v (c ∷ cs)) ≡ drop off (content v (c' ∷ cs'))
  room :
      offset + length (c' ∷ cs') * v.bytes_per_cluster ≡ off + length (c ∷ cs) * v.bytes_per_cluster

module _ (v : Volume) (nonempty : 0 < v.bytes_per_cluster) where
  stays :
      (fuel offset c : ℕ) (cs : List ℕ)
      → offset < v.bytes_per_cluster
      → IsChain v.fat c cs
      → 2 ≤ c
      → (c' : ℕ) × (off : ℕ) × (cs' : List ℕ) × (skip_clusters (suc fuel) v c offset
          ≡ some (c', off))
        × IsPlace v c cs offset c' off cs'
  unfolding skip_clusters
  stays fuel offset c cs h chain used = (
    c,
    offset,
    cs,
    ground arith,
    record { inside = h; chain = chain; used = used; same = refl; room = refl },
  )

  skip_clusters-IsPlace :
      (fuel offset c : ℕ) (cs : List ℕ)
      → offset < fuel
      → offset < length (c ∷ cs) * v.bytes_per_cluster
      → IsChain v.fat c cs
      → 2 ≤ c
      → (c' : ℕ) × (off : ℕ) × (cs' : List ℕ) × (skip_clusters fuel v c offset ≡ some (c', off))
        × IsPlace v c cs offset c' off cs'
  unfolding skip_clusters next_cluster content
  skip_clusters-IsPlace zero offset c cs enough fits chain used = absurd (omega (arith, enough))
  skip_clusters-IsPlace (suc fuel) offset c [] enough fits chain used =
      stays fuel offset c [] (omega arith) chain used
  skip_clusters-IsPlace (suc fuel) offset c (d ∷ cs) enough fits (e, low, high, chain) used =
      elim (Bool-cases (leb v.bytes_per_cluster offset)) [
        | inr here ↦ stays fuel offset c (d ∷ cs) (ground arith) (e, low, high, chain) used
        | inl beyond ↦
            let next : next_cluster v c ≡ d = ground arith in
            let h : v.bytes_per_cluster ≤ offset = ground arith in
            let (c', off, cs', found, place) =
              skip_clusters-IsPlace fuel (offset - v.bytes_per_cluster) d cs (omega arith)
                (omega arith) chain low in
            (
              c',
              off,
              cs',
              rw (skip_clusters, beyond, next) found,
              record {
                inside = place.inside;
                chain = place.chain;
                used = place.used;
                same =
                    drop-bytes_all (v.sector c) 0 offset v.bytes_per_cluster (content v (d ∷ cs)) h
                    ∙ place.same;
                room = let r = place.room in omega (arith, r);
              },
            )
      ]

-- Where `Read` starts, and how many bytes it reads.
abbrev read_start : DirectoryEntry → FileDescriptor → ℕ
read_start entry fd = if fd.rd_cluster == 0 then entry.first_cluster else fd.rd_cluster

abbrev read_size : DirectoryEntry → FileDescriptor → ℕ → ℕ
read_size entry fd len = min len ((entry.file_size + 2 ^ 64 - fd.rd_off) % 2 ^ 64)

read_of_loop :
    (v : Volume) (entry : DirectoryEntry) (fd : FileDescriptor) (len : ℕ) (found : List ℕ)
    (at : ℕ × ℕ)
    → read_loop
        (read_size entry fd len)
        v
        (read_start entry fd)
        fd.rd_cluster_off
        (read_size entry fd len)
      ≡ some (found, at)
    → (fd' : FileDescriptor) × (read v entry fd len ≡ some (found, fd'))
unfolding read
read_of_loop v entry fd len found at h = (
  record {
    rd_off = (fd.rd_off + read_size entry fd len) % 2 ^ 64;
    rd_cluster = at.0;
    rd_cluster_off = at.1;
  },
  rw (read, h) refl,
)

-- `Read` of a descriptor that stands at a place in the file.
read-place :
    (v : Volume) (entry : DirectoryEntry) (len offset c off : ℕ) (cs : List ℕ)
    → 2 ≤ c
    → off < v.bytes_per_cluster
    → IsChain v.fat c cs
    → offset ≤ entry.file_size
    → entry.file_size < 2 ^ 32
    → off + (entry.file_size - offset) ≤ length (c ∷ cs) * v.bytes_per_cluster
    → (fd : FileDescriptor) × (read v entry
          (record { rd_off = offset; rd_cluster = c; rd_cluster_off = off })
          len
        ≡ some (take (min len (entry.file_size - offset)) (drop off (content v (c ∷ cs))), fd))
read-place v entry len offset c off cs used inside chain before small fits =
    let found : List ℕ =
      take (min len (entry.file_size - offset)) (drop off (content v (c ∷ cs))) in
    let total : ℕ = min len (entry.file_size - offset) in
    let fd : FileDescriptor = record { rd_off = offset; rd_cluster = c; rd_cluster_off = off } in
    let start : read_start entry fd ≡ c = rw (==_no c 0 (λ z. omega arith)) refl in
    let size : read_size entry fd len ≡ total = omega arith in
    let (at, loops) =
      read_loop-content v total total off c cs (omega arith) inside (omega arith) chain in
    read_of_loop v entry fd len found at (
      subst (λ n. read_loop n v (read_start entry fd) off n ≡ some (found, at)) (sym size)
        (subst (λ x. read_loop total v x off total ≡ some (found, at)) (sym start) loops))

-- For a file whose chain has room for its size, `Load` at an offset inside the file ends and returns
-- the bytes of the chain from the offset on, as many as are asked for or as the file still has.
pub load-content :
    (v : Volume) (entry : DirectoryEntry) (cs : List ℕ) (len offset : ℕ)
    → IsFile v entry cs
    → offset < entry.file_size
    → load v entry len offset
      ≡ some (
          take
            (min len (entry.file_size - offset))
            (drop offset (content v (entry.first_cluster ∷ cs))))
unfolding load
load-content v entry cs len offset file before =
    let room = file.room in
    let (c, off, cs', found, place) =
      skip_clusters-IsPlace v file.nonempty (suc offset) offset entry.first_cluster cs (omega arith)
        (omega (arith, room)) file.chain file.used in
    let same_room = place.room in
    let (fd, reads) =
      read-place v entry len offset c off cs' place.used place.inside place.chain (omega arith)
        file.bounded (omega (arith, room, same_room)) in
    rw (load, found, reads, place.same) refl
