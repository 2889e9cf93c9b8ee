-- ===== src/Pool/Block.antt =====
-- What a block of AllocMem is.
use mikan_os.Prelude.{
  ℕ, zero, suc, ◌+◌, ◌-◌, ◌*◌, ◌%◌, ◌^◌, ◌<◌, ◌≤◌, ◌≡◌, refl, ◌∙◌, ap, true, none, some, ltb, arith,
  Bool-cases, inl, inr, lt→ltb, ltb→lt, ◌⊎◌,
}
use native.Mathlib.Nat.{pow-suc}
use mikan_os.Prelude.Bits.{pow-pos}
use mikan_os.Pool.{Pool, memory_pool_size, ceil, placed, alloc_mem}
use mikan_os.Pool.Ceil.{ceil_lem}

-- A multiple of the alignment, and a place that no multiple of the boundary divides.
pub record IsPlaced (old at size alignment boundary : ℕ) : Type 0 where
  pub later : old ≤ at
  pub near : at < old + alignment + boundary
  pub multiple : (q : ℕ) × (at ≡ q * alignment)
  pub whole : (q : ℕ) × (q * boundary ≤ at) × (at + size ≤ q * boundary + boundary)

scaled : (q d a : ℕ) → q * (d * a) ≡ q * d * a
scaled q d a = grind arith

previous : (q b : ℕ) → 0 < q * b → (q - 1) * b + b ≡ q * b
previous zero b h = absurd (omega arith)
previous (suc q) b h = let e : suc q - 1 ≡ q = omega arith in rw e (grind arith)

-- AllocMem for an alignment of a power of two, a boundary of a multiple of it that is a power of two
-- too, and a size that the boundary allows.
placed-IsPlaced :
    (old size a b d : ℕ)
    → 2 ^ b ≡ d * 2 ^ a
    → a ≤ 64
    → b ≤ 64
    → 0 < size
    → size ≤ 2 ^ b
    → old + 2 ^ a + 2 ^ b + size < 2 ^ 64
    → IsPlaced old (placed old size (2 ^ a) (2 ^ b)) size (2 ^ a) (2 ^ b)
unfolding placed
placed-IsPlaced old size a b d divides la lb positive fits room =
    let aligned = ceil old (2 ^ a) in
    let (qa, ea, low, high) = ceil_lem a old la (omega arith) in
    let (qb, eb, low', high') = ceil_lem b aligned lb (omega (arith, high)) in
    let next = ceil aligned (2 ^ b) in
    let on : ltb 0 (2 ^ a) ≡ true = lt→ltb 0 (2 ^ a) (pow-pos a) in
    let on' : ltb 0 (2 ^ b) ≡ true = lt→ltb 0 (2 ^ b) (pow-pos b) in
    let sum : (aligned + size) % 2 ^ 64 ≡ aligned + size = omega (arith, high) in
    elim (Bool-cases (ltb next (aligned + size))) [
      | inl crosses ↦
          rw (placed, on, on', sum, crosses)
            (record {
              later = omega (arith, low, low');
              near = omega (arith, high, high');
              multiple = (qb * d, eb ∙ ap (λ (n : ℕ). qb * n) divides ∙ scaled qb d (2 ^ a));
              whole = (qb, omega (arith, eb), omega (arith, eb, fits));
            })
      | inr inside ↦
          let beyond : aligned + size ≤ next = ground arith in
          let before = previous qb (2 ^ b) (omega (arith, eb, beyond)) in
          rw (placed, on, on', sum, inside)
            (record {
              later = low;
              near = omega (arith, high);
              multiple = (qa, ea);
              whole = (qb - 1, omega (arith, before, eb, high'), omega (arith, before, eb, beyond));
            })
    ]

pow_mono : (a n : ℕ) → a ≤ n → 2 ^ a ≤ 2 ^ n
pow_mono zero n h = pow-pos n
pow_mono (suc a) zero h = absurd (omega arith)
pow_mono (suc a) (suc n) h = omega (arith, pow-suc 2 a, pow-suc 2 n, pow_mono a n (omega arith))

-- AllocMem for an alignment that is a power of two, a boundary that is one too and a multiple of it, and
-- a size that is not 0 and that the boundary allows, in a pool below 2 ^ 62: the place is behind all
-- blocks of before, a multiple of the alignment, and no boundary lies inside the block. When the pool
-- has room for it, the block is returned, and the next one starts behind it; when it has not, none is
-- returned.
pub alloc_mem-IsPlaced :
    (pool : Pool) (size a b d : ℕ)
    → 2 ^ b ≡ d * 2 ^ a
    → a < 32
    → b < 32
    → 0 < size
    → size ≤ 2 ^ b
    → pool.memory_pool + memory_pool_size < 2 ^ 62
    → pool.alloc_ptr ≤ pool.memory_pool + memory_pool_size
    → let (block, pool') = alloc_mem pool size (2 ^ a) (2 ^ b) in
      let at = placed pool.alloc_ptr size (2 ^ a) (2 ^ b) in
      let end = pool.memory_pool + memory_pool_size in
      IsPlaced pool.alloc_ptr at size (2 ^ a) (2 ^ b)
      × (((block ≡ some at) × (at + size ≤ end) × (pool'.alloc_ptr ≡ at + size))
          ⊎ ((block ≡ none) × (end < at + size)))
unfolding alloc_mem
alloc_mem-IsPlaced pool size a b d divides la lb positive fits low inside =
    let at = placed pool.alloc_ptr size (2 ^ a) (2 ^ b) in
    let end = pool.memory_pool + memory_pool_size in
    let small_a = pow_mono a 32 (omega arith) in
    let small_b = pow_mono b 32 (omega arith) in
    let v =
      placed-IsPlaced pool.alloc_ptr size a b d divides (omega arith) (omega arith) positive fits
        (omega (arith, small_a, small_b)) in
    let sum : (at + size) % 2 ^ 64 ≡ at + size = omega (arith, v.near, small_a, small_b) in
    let top : end % 2 ^ 64 ≡ end = omega arith in
    (
      v,
      elim (Bool-cases (ltb end (at + size))) [
        | inl over ↦ inr (rw (alloc_mem, sum, top, over) refl, ltb→lt end (at + size) over)
        | inr room ↦
            inl (
              rw (alloc_mem, sum, top, room) refl,
              ground arith,
              rw (alloc_mem, sum, top, room) refl,
            )
      ],
    )
