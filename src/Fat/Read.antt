-- ===== src/Fat/Read.antt =====
-- What Read and Load return: the bytes of the file.
use mikan_os.Prelude.{
  ℕ, zero, suc, ◌+◌, ◌-◌, ◌*◌, ◌≤◌, ◌<◌, min, ◌≡◌, refl, ◌∙◌, ap, subst, List, [], ◌∷◌, ◌++◌, none,
  some, length, take, drop, ltb, ◌==◌, if◌then◌else◌, arith, Bool-cases, inl, inr, ==_yes, ==_no,
}
use mikan_os.Fat.{Volume, bytes, next_cluster, read_loop}
use mikan_os.Fat.Chain.{IsChain}

module _ (v : Volume) where
  -- The bytes of a chain.
  unfoldable pub content : List ℕ → List ℕ
  content [] = []
  content (c ∷ cs) = bytes (v.sector c) 0 v.bytes_per_cluster ++ content cs

drop-bytes :
    (sec : ℕ → ℕ) (o off n : ℕ) (rest : List ℕ)
    → off ≤ n
    → drop off (bytes sec o n ++ rest) ≡ bytes sec (o + off) (n - off) ++ rest
unfolding bytes
drop-bytes sec o zero n rest h =
    let e : o + 0 ≡ o = omega arith in let k : n - 0 ≡ n = omega arith in rw (e, k) refl
drop-bytes sec o (suc off) zero rest h = ground arith
drop-bytes sec o (suc off) (suc n) rest h =
    let e : o + suc off ≡ o + 1 + off = omega arith in
    let k : suc n - suc off ≡ n - off = omega arith in
    rw (e, k) (drop-bytes sec (o + 1) off n rest (omega arith))

pub drop-bytes_all :
    (sec : ℕ → ℕ) (o off n : ℕ) (rest : List ℕ)
    → n ≤ off
    → drop off (bytes sec o n ++ rest) ≡ drop (off - n) rest
unfolding bytes
drop-bytes_all sec o off zero rest h = let k : off - 0 ≡ off = omega arith in rw k refl
drop-bytes_all sec o zero (suc n) rest h = ground arith
drop-bytes_all sec o (suc off) (suc n) rest h =
    let k : suc off - suc n ≡ off - n = omega arith in
    rw k (drop-bytes_all sec (o + 1) off n rest (omega arith))

take-bytes :
    (sec : ℕ → ℕ) (o len n : ℕ) (rest : List ℕ)
    → len ≤ n
    → take len (bytes sec o n ++ rest) ≡ bytes sec o len ++ []
unfolding bytes
take-bytes sec o zero n rest h = refl
take-bytes sec o (suc len) zero rest h = ground arith
take-bytes sec o (suc len) (suc n) rest h =
    ap (λ z. sec o ∷ z) (take-bytes sec (o + 1) len n rest (omega arith))

take-bytes_all :
    (sec : ℕ → ℕ) (o len n : ℕ) (rest : List ℕ)
    → n ≤ len
    → take len (bytes sec o n ++ rest) ≡ bytes sec o n ++ take (len - n) rest
unfolding bytes
take-bytes_all sec o len zero rest h = let k : len - 0 ≡ len = omega arith in rw k refl
take-bytes_all sec o zero (suc n) rest h = ground arith
take-bytes_all sec o (suc len) (suc n) rest h =
    let k : suc len - suc n ≡ len - n = omega arith in
    rw (k, take-bytes_all sec (o + 1) len n rest (omega arith)) refl

module _ (v : Volume) where
  drop-content :
      (c off : ℕ) (cs : List ℕ)
      → off ≤ v.bytes_per_cluster
      → drop off (content v (c ∷ cs))
        ≡ bytes (v.sector c) off (v.bytes_per_cluster - off) ++ content v cs
  unfolding content
  drop-content c off cs h =
      let e : 0 + off ≡ off = omega arith in
      drop-bytes (v.sector c) 0 off v.bytes_per_cluster (content v cs) h ∙ rw e refl

  read_loop_done : (fuel c off : ℕ) → read_loop fuel v c off 0 ≡ some ([], (c, off))
  unfolding read_loop
  read_loop_done zero c off = refl
  read_loop_done (suc fuel) c off = refl

  -- A round of the loop in which `n` bytes are read.
  read_loop-round :
      (fuel len off c n : ℕ)
      → min (suc len) (v.bytes_per_cluster - off) ≡ n
      → read_loop (suc fuel) v c off (suc len)
        ≡ elim (read_loop fuel v
            (if off + n == v.bytes_per_cluster then next_cluster v c else c)
            (if off + n == v.bytes_per_cluster then 0 else off + n)
            (suc len - n)) [
              | none ↦ none
              | some (rest, at) ↦ some (bytes (v.sector c) off n ++ rest, at)
            ]
  unfolding read_loop
  read_loop-round fuel len off c n e =
      subst
        (λ n.
          read_loop (suc fuel) v c off (suc len)
          ≡ elim (read_loop fuel v (if off + n == v.bytes_per_cluster then next_cluster v c else c)
              (if off + n == v.bytes_per_cluster then 0 else off + n) (suc len - n)) [
                | none ↦ none
                | some (rest, at) ↦ some (bytes (v.sector c) off n ++ rest, at)
              ])
        e refl

  read_loop_within :
      (fuel len off c : ℕ)
      → off + suc len < v.bytes_per_cluster
      → read_loop (suc fuel) v c off (suc len)
        ≡ some (bytes (v.sector c) off (suc len) ++ [], (c, off + suc len))
  read_loop_within fuel len off c h =
      let e : min (suc len) (v.bytes_per_cluster - off) ≡ suc len = omega arith in
      let k : suc len - suc len ≡ 0 = omega arith in
      read_loop-round fuel len off c _ e
      ∙ rw
          (
            ==_no (off + suc len) v.bytes_per_cluster (λ z. omega arith),
            k,
            read_loop_done fuel c (off + suc len),
          )
          refl

  read_loop_beyond :
      (fuel len off c : ℕ) (rest : List ℕ) (at : ℕ × ℕ)
      → off < v.bytes_per_cluster
      → v.bytes_per_cluster ≤ off + suc len
      → read_loop fuel v (next_cluster v c) 0 (suc len - (v.bytes_per_cluster - off))
        ≡ some (rest, at)
      → read_loop (suc fuel) v c off (suc len)
        ≡ some (bytes (v.sector c) off (v.bytes_per_cluster - off) ++ rest, at)
  read_loop_beyond fuel len off c rest at inside h e =
      let k : min (suc len) (v.bytes_per_cluster - off) ≡ v.bytes_per_cluster - off = omega arith in
      read_loop-round fuel len off c _ k
      ∙ rw (==_yes (off + (v.bytes_per_cluster - off)) v.bytes_per_cluster (omega arith), e) refl

  within-content :
      (fuel len off c : ℕ) (cs : List ℕ)
      → off + suc len < v.bytes_per_cluster
      → read_loop (suc fuel) v c off (suc len)
        ≡ some (take (suc len) (drop off (content v (c ∷ cs))), (c, off + suc len))
  within-content fuel len off c cs h =
      rw
        (
          drop-content c off cs (omega arith),
          take-bytes (v.sector c) off (suc len) (v.bytes_per_cluster - off) (content v cs)
              (omega arith),
        )
        (read_loop_within fuel len off c h)

  beyond-content :
      (fuel len off c : ℕ) (cs : List ℕ) (at : ℕ × ℕ)
      → off < v.bytes_per_cluster
      → v.bytes_per_cluster ≤ off + suc len
      → read_loop fuel v (next_cluster v c) 0 (suc len - (v.bytes_per_cluster - off))
        ≡ some (take (suc len - (v.bytes_per_cluster - off)) (content v cs), at)
      → read_loop (suc fuel) v c off (suc len)
        ≡ some (take (suc len) (drop off (content v (c ∷ cs))), at)
  beyond-content fuel len off c cs at inside h e =
      rw
        (
          drop-content c off cs (omega arith),
          take-bytes_all (v.sector c) off (suc len) (v.bytes_per_cluster - off) (content v cs)
              (omega arith),
        )
        (read_loop_beyond fuel len off c _ at inside h e)

  -- The loop of `Read` ends, with the bytes of the chain from the offset on.
  pub read_loop-content :
      (fuel len off c : ℕ) (cs : List ℕ)
      → len ≤ fuel
      → off < v.bytes_per_cluster
      → off + len ≤ length (c ∷ cs) * v.bytes_per_cluster
      → IsChain v.fat c cs
      → (at : ℕ × ℕ) × (read_loop fuel v c off len
          ≡ some (take len (drop off (content v (c ∷ cs))), at))
  unfolding next_cluster
  read_loop-content fuel zero off c cs enough inside fits chain =
      ((c, off), read_loop_done fuel c off)
  read_loop-content zero (suc len) off c cs enough inside fits chain =
      absurd (omega (arith, enough))
  read_loop-content (suc fuel) (suc len) off c [] enough inside fits chain =
      elim (Bool-cases (ltb (off + suc len) v.bytes_per_cluster)) [
        | inl within ↦ ((c, off + suc len), within-content fuel len off c [] (ground arith))
        | inr beyond ↦
            let done : suc len - (v.bytes_per_cluster - off) ≡ 0 = ground arith in
            (
              (next_cluster v c, 0),
              beyond-content fuel len off c [] _ inside (ground arith)
                  (rw (done) (read_loop_done fuel (next_cluster v c) 0)),
            )
      ]
  read_loop-content (suc fuel) (suc len) off c (d ∷ cs) enough inside fits (e, low, high, chain) =
      elim (Bool-cases (ltb (off + suc len) v.bytes_per_cluster)) [
        | inl within ↦ ((c, off + suc len), within-content fuel len off c (d ∷ cs) (ground arith))
        | inr beyond ↦
            let next : next_cluster v c ≡ d = ground arith in
            let (at, rest) =
              read_loop-content fuel (suc len - (v.bytes_per_cluster - off)) 0 d cs (omega arith)
                (omega arith) (omega arith) chain in
            (at, beyond-content fuel len off c (d ∷ cs) at inside (ground arith) (rw next rest))
      ]
