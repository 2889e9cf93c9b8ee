-- ===== src/Elf.antt =====
-- kernel/elf.hpp and the loader of kernel/terminal.cpp: the segments of a program are given pages and
-- copied to them. The program headers are the list of what GetProgramHeader returns.
pub mod Range
pub mod Stored
pub mod Copied
pub mod Outcome
pub mod Loaded
mod Tests
use mikan_os.Prelude.{
  ℕ, ◌+◌, ◌-◌, ◌*◌, ◌/◌, ◌%◌, ◌^◌, min, max, List, [], ◌∷◌, not, ltb, ◌==◌, if◌then◌else◌, false,
}
use mikan_os.Error.{Code}
use mikan_os.Paging.{M, ◌>>=◌, ◌>>◌, pure, err, setup_page_maps}

-- `Elf64_Phdr`, the fields that the loader reads. All are words of 64 bits in its sums.
pub record Phdr : Type 0 where
  pub p_type : ℕ
  pub p_offset : ℕ
  pub p_vaddr : ℕ
  pub p_filesz : ℕ
  pub p_memsz : ℕ

-- `Elf64_Ehdr`, with the program headers.
pub record Ehdr : Type 0 where
  pub e_type : ℕ
  pub phdrs : List Phdr

abbrev pub et_exec : ℕ
et_exec = 2

abbrev pub pt_load : ℕ
pt_load = 1

-- What the processor does for `memcpy` of a part of the file, and for `memset` with 0, to addresses.
pub record Stores : Type 0 where
  pub copy : (dst offset len : ℕ) → M (Unit {0})
  pub clear : (dst len : ℕ) → M (Unit {0})

-- `GetFirstLoadAddress`, over an address that is 0.
unfoldable pub get_first_load_address : List Phdr → ℕ
get_first_load_address [] = 0
get_first_load_address (p ∷ ps) =
    let rest = get_first_load_address ps in if not (p.p_type == pt_load) then rest else p.p_vaddr

-- The end of a segment.
abbrev pub segment_end : Phdr → ℕ
segment_end p = (p.p_vaddr + p.p_memsz) % 2 ^ 64

-- The first loop of `CopyLoadSegments`: `vaddr_min` and `vaddr_max`.
unfoldable pub load_range : List Phdr → (vaddr_min vaddr_max : ℕ) → ℕ × ℕ
load_range [] vaddr_min vaddr_max = (vaddr_min, vaddr_max)
load_range (p ∷ ps) vaddr_min vaddr_max =
    let rest = load_range ps vaddr_min vaddr_max in
    let wider = load_range ps (min vaddr_min p.p_vaddr) (max vaddr_max (segment_end p)) in
    if not (p.p_type == pt_load) then rest else wider

-- The second loop of `CopyLoadSegments`.
unfoldable pub copy_segments : Stores → List Phdr → M (Unit {0})
copy_segments stores [] = pure tt
copy_segments stores (p ∷ ps) =
    let rest = copy_segments stores ps in
    let copied =
      stores.copy p.p_vaddr p.p_offset p.p_filesz
      >> stores.clear ((p.p_vaddr + p.p_filesz) % 2 ^ 64)
          ((p.p_memsz + 2 ^ 64 - p.p_filesz) % 2 ^ 64)
      >> rest in
    if not (p.p_type == pt_load) then rest else copied

-- `num_4kpages` of `CopyLoadSegments`.
abbrev pub range_pages : ℕ → ℕ → ℕ
range_pages vaddr_min vaddr_max =
    let total_range = (vaddr_max + 2 ^ 64 - vaddr_min) % 2 ^ 64 in
    (total_range + 4095) % 2 ^ 64 / 4096

-- `CopyLoadSegments`: the end of the last segment.
unfoldable pub copy_load_segments : Stores → ℕ → List Phdr → M ℕ
copy_load_segments stores cr3 phdrs =
    let (vaddr_min, vaddr_max) = load_range phdrs (2 ^ 64 - 1) 0 in
    setup_page_maps cr3 false vaddr_min (range_pages vaddr_min vaddr_max)
    >> copy_segments stores phdrs
    >> pure vaddr_max

-- `LoadElf`.
unfoldable pub load_elf : Stores → ℕ → Ehdr → M ℕ
load_elf stores cr3 ehdr s =
    let loaded = copy_load_segments stores cr3 ehdr.phdrs s in
    if not (ehdr.e_type == et_exec)
    then err Code.invalid_format s
    else if ltb (get_first_load_address ehdr.phdrs) 18446603336221196288
    then err Code.invalid_format s
    else loaded
