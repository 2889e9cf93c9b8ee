-- ===== src/Pool.antt =====
-- kernel/usb/memory.hpp and kernel/usb/memory.cpp: the memory of the USB driver, which is never freed.
pub mod Ceil
pub mod Block
mod Tests
use mikan_os.Prelude.{
  ℕ, ◌+◌, ◌-◌, ◌%◌, ◌^◌, Bool, ◌&&◌, Option, none, some, ltb, bit_and, if◌then◌else◌,
}

-- `kMemoryPoolSize`.
abbrev pub memory_pool_size : ℕ
memory_pool_size = 131072

pub record Pool : Type 0 where
  pub memory_pool : ℕ
  pub alloc_ptr : ℕ

-- `Ceil`, of an alignment that is not 0.
unfoldable pub ceil : ℕ → ℕ → ℕ
ceil value alignment =
    bit_and ((value + alignment + 2 ^ 64 - 1) % 2 ^ 64) (2 ^ 64 - 1 - (alignment - 1))

-- The address that `AllocMem` takes, before it looks whether the pool has room.
unfoldable pub placed : ℕ → (size alignment boundary : ℕ) → ℕ
placed alloc_ptr size alignment boundary =
    let aligned = if ltb 0 alignment then ceil alloc_ptr alignment else alloc_ptr in
    let next_boundary = ceil aligned boundary in
    if ltb 0 boundary && ltb next_boundary ((aligned + size) % 2 ^ 64)
    then next_boundary
    else aligned

-- `AllocMem`. The pointer stays moved when the pool has no room.
unfoldable pub alloc_mem : Pool → (size alignment boundary : ℕ) → Option ℕ × Pool
alloc_mem pool size alignment boundary =
    let at = placed pool.alloc_ptr size alignment boundary in
    let end = (at + size) % 2 ^ 64 in
    if ltb ((pool.memory_pool + memory_pool_size) % 2 ^ 64) end
    then (none, record pool { alloc_ptr = at })
    else (some at, record pool { alloc_ptr = end })
