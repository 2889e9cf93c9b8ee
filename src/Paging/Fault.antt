-- ===== src/Paging/Fault.antt =====
-- kernel/paging.cpp, HandlePageFault: pages on demand, of files, and those that are copied on a write.
pub mod OnWrite
pub mod OnDemand
use mikan_os.Prelude.{
  ℕ, zero, suc, ◌+◌, ◌-◌, ◌*◌, ◌/◌, ◌%◌, ◌^◌, List, [], ◌∷◌, true, ◌&&◌, Option, none, some, ltb,
  leb, ◌==◌, if◌then◌else◌,
}
use mikan_os.Error.{Code}
use mikan_os.Paging.{
  M, ◌>>=◌, ◌>>◌, pure, err, stuck, Physical, field_at, entry, put_entry, pointer, set_pointer,
  set_writable, part, set_part, fill_frame, new_page_map, setup_page_maps,
}

-- `FileMapping`.
pub record FileMapping : Type 0 where
  pub fd : ℕ
  pub vaddr_begin : ℕ
  pub vaddr_end : ℕ

-- What a page fault needs of the task: where its pages on demand lie, and its file mappings.
pub record Paged : Type 0 where
  pub dpaging_begin : ℕ
  pub dpaging_end : ℕ
  pub file_maps : List FileMapping

-- What the handler calls besides: what the processor reads of the page at an address, and `Load` of a
-- file descriptor, which gets an address, a length and an offset in the file.
pub record Machine : Type 0 where
  pub page_content : Physical → ℕ → ℕ → ℕ
  pub load : ℕ → (buf len offset : ℕ) → M ℕ

-- `FindFileMapping`.
unfoldable pub find_file_mapping : List FileMapping → ℕ → Option FileMapping
find_file_mapping [] causal_vaddr = none
find_file_mapping (x ∷ fmaps) causal_vaddr =
    let rest = find_file_mapping fmaps causal_vaddr in
    if leb x.vaddr_begin causal_vaddr && ltb causal_vaddr x.vaddr_end then some x else rest

-- `SetPageContent`, less the flush of the TLB. With part 0, which no caller passes, it would not stop.
unfoldable pub set_page_content : (level table addr content : ℕ) → M (Unit {0})
set_page_content zero table addr content = λ s. stuck
set_page_content (suc zero) table addr content = do
  let i = part 1 addr
  e ← entry table i
  put_entry table i (set_pointer e content)
  d ← entry table i
  put_entry table i (set_writable true d)
set_page_content (suc (suc level)) table addr content =
    entry table (part (suc (suc level)) addr) >>= λ e.
    set_page_content (suc level) (pointer e) addr content

-- `CopyOnePage`.
unfoldable pub copy_one_page : Machine → (cr3 causal_addr : ℕ) → M (Unit {0})
copy_one_page machine cr3 causal_addr = new_page_map >>= λ p s.
    (fill_frame p (machine.page_content s (causal_addr / 4096 * 4096))
        >> set_page_content 4 cr3 causal_addr p)
      s

-- `PreparePageCache`.
unfoldable pub prepare_page_cache : Machine → ℕ → FileMapping → ℕ → M (Unit {0})
prepare_page_cache machine cr3 x causal_vaddr =
    let page_vaddr = set_part 0 causal_vaddr 0 in
    setup_page_maps cr3 true page_vaddr 1
    >> machine.load x.fd page_vaddr 4096 ((page_vaddr + 2 ^ 64 - x.vaddr_begin) % 2 ^ 64)
    >> pure tt

-- The end of `HandlePageFault`: the address of a file mapping, or of nothing.
unfoldable pub file_fault : Machine → Paged → (cr3 causal_addr : ℕ) → M (Unit {0})
file_fault machine task cr3 causal_addr s = elim (find_file_mapping task.file_maps causal_addr) [
  | some x ↦ prepare_page_cache machine cr3 x causal_addr s
  | none ↦ err Code.index_out_of_range s
]

-- `HandlePageFault`.
unfoldable pub handle_page_fault : Machine → Paged → (cr3 error_code causal_addr : ℕ) → M (Unit {0})
handle_page_fault machine task cr3 error_code causal_addr s =
    let present = field_at error_code 0 1 == 1 in
    let write = field_at error_code 1 1 == 1 in
    let user = field_at error_code 2 1 == 1 in
    let copied = copy_one_page machine cr3 causal_addr s in
    let on_demand = (setup_page_maps cr3 true causal_addr 1 >> pure tt) s in
    let of_file = file_fault machine task cr3 causal_addr s in
    if present && write && user
    then copied
    else if present
    then err Code.already_allocated s
    else if leb task.dpaging_begin causal_addr && ltb causal_addr task.dpaging_end
    then on_demand
    else of_file
