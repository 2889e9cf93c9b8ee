-- ===== src/Pool/Tests.antt =====
-- A pool, and the instance of the theorem.
use mikan_os.Prelude.{◌≡◌, ◌<◌, ◌≤◌, ◌+◌, ◌⊎◌, refl, some, none, arith}
use mikan_os.Pool.{Pool, ceil, placed, alloc_mem}
use mikan_os.Pool.Block.{IsPlaced, alloc_mem-IsPlaced}

abbrev pool : Pool
pool = record { memory_pool = 65536; alloc_ptr = 69600 }

-- 100 bytes from 69600 on would meet the boundary at 69632.
alloc_mem-IsPlaced_example :
    let (block, pool') = alloc_mem pool 100 64 4096 in
    let at = placed 69600 100 64 4096 in
    IsPlaced 69600 at 100 64 4096
    × (((block ≡ some at) × (at + 100 ≤ 196608) × (pool'.alloc_ptr ≡ at + 100))
        ⊎ ((block ≡ none) × (196608 < at + 100)))
alloc_mem-IsPlaced_example =
    alloc_mem-IsPlaced pool 100 6 12 64 refl (omega arith) (omega arith) (omega arith) (omega arith)
      (omega arith) (omega arith)

placed_at_boundary : placed 69600 100 64 4096 ≡ 69632
unfolding placed ceil
placed_at_boundary = refl
