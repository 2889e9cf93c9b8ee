-- ===== src/Paging/Fault/OnWrite.antt =====
-- A write to a page that is read-only: the task gets a copy of its own.
use mikan_os.Prelude.{
  ℕ, zero, suc, ◌*◌, ◌/◌, ◌%◌, ◌^◌, ◌≡◌, refl, ◌∙◌, ap, sym, true, false, ◌&&◌, ◌==◌, ◌⊎◌,
  if◌then◌else◌, arith, inl, inr, subst,
}
use mikan_os.Error.{Code}
use mikan_os.Memory.{get_bit}
use mikan_os.Memory.Bitmap.{IsValid}
use mikan_os.Paging.{
  Physical, ok, err, M, ◌>>◌, entry, put_entry, fill_frame, present, writable, pointer, set_pointer,
  set_writable, part, new_page_map,
}
use mikan_os.Paging.Entry.{pointer_entry, writable_entry}
use mikan_os.Paging.Steps.{NewTable, new_page_map-cases, bind_ok, bind_err}
use mikan_os.Paging.Fault.{Machine, Paged, set_page_content, copy_one_page, handle_page_fault}

-- The frame of the table of pages that the parts of the address lead to.
unfoldable pub page_table : (ℕ → ℕ → ℕ) → (level table addr : ℕ) → ℕ
page_table words zero table addr = table
page_table words (suc zero) table addr = table
page_table words (suc (suc level)) table addr =
    page_table words (suc level) (pointer (words table (part (suc (suc level)) addr))) addr

-- The entries on the way are present, and the tables and the page are in use.
abbrev pub UsedPath : Physical → (level table addr : ℕ) → Type 0
UsedPath s zero table addr = get_bit s.manager table ≡ true
UsedPath s (suc level) table addr =
    let e = s.words table (part (suc level) addr) in
    (get_bit s.manager table ≡ true) × (present e ≡ true) × UsedPath s level (pointer e) addr

-- The words of the frames in use stay.
abbrev pub Stays : Physical → Physical → Type 0
Stays s s' =
    (f : ℕ)
    → get_bit s.manager f ≡ true
    → (get_bit s'.manager f ≡ true) × ((j : ℕ) → s'.words f j ≡ s.words f j)

UsedPath-Stays :
    (s s' : Physical) (level table addr : ℕ)
    → Stays s s'
    → UsedPath s level table addr
    → UsedPath s' level table addr
UsedPath-Stays s s' zero table addr h u = (h table u).0
UsedPath-Stays s s' (suc level) table addr h (b, there, u) =
    let same = sym ((h table b).1 (part (suc level) addr)) in
    (
      (h table b).0,
      subst (λ (x : ℕ). present x ≡ true) same there,
      subst (λ (x : ℕ). UsedPath s' level (pointer x) addr) same
          (UsedPath-Stays s s' level (pointer (s.words table (part (suc level) addr))) addr h u),
    )

page_table-Stays :
    (s s' : Physical) (level table addr : ℕ)
    → Stays s s'
    → UsedPath s level table addr
    → page_table s'.words level table addr ≡ page_table s.words level table addr
unfolding page_table
page_table-Stays s s' zero table addr h u = refl
page_table-Stays s s' (suc zero) table addr h u = refl
page_table-Stays s s' (suc (suc level)) table addr h (b, there, u) =
    let i = part (suc (suc level)) addr in
    ap (λ (x : ℕ). page_table s'.words (suc level) (pointer x) addr) ((h table b).1 i)
    ∙ page_table-Stays s s' (suc level) (pointer (s.words table i)) addr h u

-- The table of the page and the page are in use, and the page is present.
page_table_used :
    (s : Physical) (level table addr : ℕ)
    → UsedPath s (suc level) table addr
    → UsedPath s 1 (page_table s.words (suc level) table addr) addr
unfolding page_table
page_table_used s zero table addr u = u
page_table_used s (suc level) table addr (b, there, u) =
    page_table_used s level (pointer (s.words table (part (suc (suc level)) addr))) addr u

-- The state after `SetPageContent`.
abbrev with_content : (table i content : ℕ) → Physical → Physical
with_content table i content s =
    let w : ℕ → ℕ → ℕ =
      λ f j. if f == table && j == i then set_pointer (s.words table i) content else s.words f j in
    record s {
      words = λ f j. if f == table && j == i then set_writable true (w table i) else w f j;
    }

set_page_content_lem :
    (level table addr content : ℕ) (s : Physical)
    → set_page_content (suc level) table addr content s
      ≡ ok tt (with_content (page_table s.words (suc level) table addr) (part 1 addr) content s)
unfolding set_page_content page_table entry put_entry
set_page_content_lem zero table addr content s = refl
set_page_content_lem (suc level) table addr content s =
    set_page_content_lem level (pointer (s.words table (part (suc (suc level)) addr))) addr content
      s

-- The frame `f`, which was free, holds what the page of the entry `i` of `table` held; the entry, and no
-- other word of a frame in use, has changed: it is present and writable and points to `f`.
pub record IsOwnPage (table i f : ℕ) (s s' : Physical) : Type 0 where
  pub valid : IsValid s'.manager
  pub bits : (g : ℕ) → get_bit s'.manager g ≡ (if g == f then true else get_bit s.manager g)
  pub unused : get_bit s.manager f ≡ false
  pub there : present (s'.words table i) ≡ true
  pub may_write : writable (s'.words table i) ≡ true
  pub points : pointer (s'.words table i) ≡ f
  pub content : (j : ℕ) → s'.words f j ≡ s.words (pointer (s.words table i)) j
  pub others :
      (g j : ℕ)
      → get_bit s.manager g ≡ true
      → (g == table && j == i) ≡ false
      → s'.words g j ≡ s.words g j

with_content-IsOwnPage :
    (table i : ℕ) (s : Physical) (t : NewTable s) (content : ℕ → ℕ)
    → get_bit s.manager table ≡ true
    → present (s.words table i) ≡ true
    → ((j : ℕ) → content j ≡ s.words (pointer (s.words table i)) j)
    → IsOwnPage table i t.frame s (
        with_content table i t.frame (record {
          words =
              λ f j. if f == t.frame then content j else if f == t.frame then 0 else s.words f j;
          manager = t.after;
        }))
with_content-IsOwnPage table i s t content used there same =
    let unused = t.unused in
    let apart : (table == t.frame) ≡ false = ground (arith, unused, used) in
    let apart' : (t.frame == table) ≡ false = ground (arith, unused, used) in
    let self : (table == table && i == i) ≡ true = ground arith in
    let self' : (t.frame == t.frame) ≡ true = ground arith in
    let old = s.words table i in
    let (p, q) = pointer_entry old t.frame t.small in
    let (p', q', w) = writable_entry (set_pointer old t.frame) true in
    record {
      valid = t.valid;
      bits = t.marked;
      unused = t.unused;
      there = rw (self, apart) (p' ∙ (p ∙ there));
      may_write = rw (self, apart) w;
      points = rw (self, apart) (q' ∙ q);
      content = λ j. rw (apart', self') (same j);
      others = λ g j b n.
          let far : (g == t.frame) ≡ false = ground (arith, unused, b) in rw (n, far) refl;
    }

copy_one_page-IsOwnPage :
    (machine : Machine) (cr3 addr : ℕ) (s : Physical)
    → IsValid s.manager
    → UsedPath s 4 cr3 addr
    → ((t : Physical) (j : ℕ)
        → UsedPath t 4 cr3 addr
        → machine.page_content t (addr / 4096 * 4096) j
          ≡ t.words (pointer (t.words (page_table t.words 4 cr3 addr) (part 1 addr))) j)
    → let table = page_table s.words 4 cr3 addr in
      ((f : ℕ) × (s' : Physical) × (copy_one_page machine cr3 addr s ≡ ok tt s')
        × IsOwnPage table (part 1 addr) f s s')
      ⊎ (copy_one_page machine cr3 addr s ≡ err Code.no_enough_memory s)
unfolding copy_one_page fill_frame
copy_one_page-IsOwnPage machine cr3 addr s v u reads =
    let rest : ℕ → M (Unit {0}) = λ p t.
      (fill_frame p (machine.page_content t (addr / 4096 * 4096)) >> set_page_content 4 cr3 addr p)
        t in
    elim (new_page_map-cases s v) [
      | inr e ↦ inr (bind_err new_page_map rest s s Code.no_enough_memory e)
      | inl t ↦
          let table = page_table s.words 4 cr3 addr in
          let i = part 1 addr in
          let s1 : Physical = record {
            words = λ f j. if f == t.frame then 0 else s.words f j;
            manager = t.after;
          } in
          let content = machine.page_content s1 (addr / 4096 * 4096) in
          let s2 : Physical = record s1 {
            words = λ f j. if f == t.frame then content j else s1.words f j;
          } in
          let far : (f : ℕ) → get_bit s.manager f ≡ true → (f == t.frame) ≡ false =
            λ f b. (let n = t.unused in ground (arith, n, b)) in
          let still : (f : ℕ) → get_bit s.manager f ≡ true → get_bit t.after f ≡ true =
            λ f b. ground (arith, t.marked f, b) in
          let stays1 : Stays s s1 = λ f b. (still f b, λ j. rw (far f b) refl) in
          let stays2 : Stays s s2 = λ f b. (still f b, λ j. rw (far f b) refl) in
          let (used, there, page_used) = page_table_used s 3 cr3 addr u in
          let same_table = page_table-Stays s s1 4 cr3 addr stays1 u in
          let old = pointer (s.words table i) in
          let same : (j : ℕ) → content j ≡ s.words old j = λ j.
            reads s1 j (UsedPath-Stays s s1 4 cr3 addr stays1 u)
            ∙ ap (λ (x : ℕ). s1.words (pointer (s1.words x i)) j) same_table
            ∙ ap (λ (x : ℕ). s1.words (pointer x) j) ((stays1 table used).1 i)
            ∙ (stays1 old page_used).1 j in
          inl (
            t.frame,
            with_content table i t.frame s2,
            bind_ok new_page_map rest s s1 t.frame t.result
                ∙ set_page_content_lem 3 cr3 addr t.frame s2
                ∙ ap (λ (x : ℕ). ok tt (with_content x i t.frame s2))
                    (page_table-Stays s s2 4 cr3 addr stays2 u),
            with_content-IsOwnPage table i s t content used there same,
          )
    ]

-- HandlePageFault for a write of an application to a present page whose tables and frame are in use,
-- where the copy reads the page that the tables lead to: with success, the page has a frame of its own
-- that was free, with the same content, present and writable, and no other word of a frame in use has
-- changed; or memory has run out and nothing has changed.
pub handle_page_fault-IsOwnPage :
    (machine : Machine) (task : Paged) (cr3 error_code addr : ℕ) (s : Physical)
    → IsValid s.manager
    → UsedPath s 4 cr3 addr
    → ((t : Physical) (j : ℕ)
        → UsedPath t 4 cr3 addr
        → machine.page_content t (addr / 4096 * 4096) j
          ≡ t.words (pointer (t.words (page_table t.words 4 cr3 addr) (part 1 addr))) j)
    → error_code % 8 ≡ 7
    → let table = page_table s.words 4 cr3 addr in
      ((f : ℕ) × (s' : Physical) × (handle_page_fault machine task cr3 error_code addr s ≡ ok tt s')
        × IsOwnPage table (part 1 addr) f s s')
      ⊎ (handle_page_fault machine task cr3 error_code addr s ≡ err Code.no_enough_memory s)
unfolding handle_page_fault
handle_page_fault-IsOwnPage machine task cr3 error_code addr s v u reads bits =
    let there : (error_code / 2 ^ 0 % 2 ^ 1 == 1) ≡ true = ground arith in
    let written : (error_code / 2 ^ 1 % 2 ^ 1 == 1) ≡ true = ground arith in
    let by_user : (error_code / 2 ^ 2 % 2 ^ 1 == 1) ≡ true = ground arith in
    rw (handle_page_fault, there, written, by_user)
      (copy_one_page-IsOwnPage machine cr3 addr s v u reads)
