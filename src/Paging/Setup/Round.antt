-- ===== src/Paging/Setup/Round.antt =====
-- The loop of SetupPageMap, and the levels above each other.
use mikan_os.Prelude.{
  ℕ, zero, suc, ◌+◌, ◌-◌, ◌*◌, ◌/◌, ◌%◌, ◌<◌, ◌≤◌, ◌≡◌, refl, ◌∙◌, ap, ap₂, sym, Bool, true, false,
  ◌==◌, arith, Bool-cases, inl, inr, subst,
}
use native.Mathlib.Decide.{dec_lt}
use native.Mathlib.Nat.{mod-lt, mul-div_cancel}
use mikan_os.Paging.{
  Physical, M, pure, present, pointer, part, next_entry, setup_entry, setup_loop, setup_page_map,
  setup_page_maps,
}
use mikan_os.Paging.Address.{span, page, part_lem, page_below, next_entry_lem}
use mikan_os.Paging.Owned.{Owner, IsClosed, Grows, Grows-refl, mapped, mapped_below, mapped-Grows}
use mikan_os.Paging.Steps.{After, After-bind, After-map}
use mikan_os.Paging.Setup.{setup_entry-After}
use mikan_os.Paging.Setup.Digits.{span_pos, div_below, mod_below, next_page}

-- The pages of the table from the address on, as many as are asked for, are mapped; the pages behind
-- the table are left.
abbrev pub IsDone : (level table addr n : ℕ) → Owner → ℕ → Physical → Type 0
IsDone level table addr n own left s =
    (left ≡ n - (span level - page level addr))
    × ((k : ℕ)
        → k < n
        → k < span level - page level addr
        → mapped s.words level table (page level addr + k) ≡ true)

-- What the loop needs of the calls of the next level.
abbrev pub Sets : ℕ → (ℕ → ℕ → ℕ → M ℕ) → Type 0
Sets level child =
    (own : Owner) (s : Physical) (table addr n : ℕ)
    → IsClosed own s
    → ((j : ℕ) → part level addr ≤ j → own level table j ≡ true)
    → After own s (IsDone level table addr n) (child table addr n s)

-- What one entry has of the pages.
abbrev Filled : (level table addr n : ℕ) → Owner → ℕ → Physical → Type 0
Filled level table addr n own left s =
    let q = page (suc level) addr in
    let c = span level - q % span level in
    (left ≡ n - c) × ((k : ℕ) → k < n → k < c → mapped s.words (suc level) table (q + k) ≡ true)

setup_entry-Filled :
    (level : ℕ) (child : ℕ → ℕ → ℕ → M ℕ) (is_writable : Bool) (own : Owner) (s : Physical)
    (table addr n : ℕ)
    → level < 4
    → Sets level child
    → IsClosed own s
    → own (suc level) table (part (suc level) addr) ≡ true
    → After own s (Filled level table addr n) (setup_entry child is_writable level table addr n s)
setup_entry-Filled level child is_writable own s table addr n small sets v o =
    let q = page (suc level) addr in
    let sp = span level in
    let i = part (suc level) addr in
    let pos = span_pos level in
    let below = page_below level addr small in
    let at = part_lem level addr small in
    setup_entry-After child is_writable own s level table addr n (Filled level table addr n) v o
      (λ own' t s' w g (there, points, all).
        After-map own' s' (IsDone level t addr n) (Filled level table addr n) (child t addr n s')
          (sets own' s' t addr n w (λ j h. all j))
          (λ own'' left s'' g' (count, done).
            let o' = g.owned (suc level) table i (v.allocated (suc level) table i o) ∙ o in
            let (there', same) = g'.linked level table i o' there in
            (
              count ∙ ap (λ (r : ℕ). n - (sp - r)) below,
              (λ k kn kc.
                  let index = div_below q k sp pos kc ∙ sym at in
                  let rest = mod_below q k sp pos kc ∙ ap (λ (r : ℕ). r + k) (sym below) in
                  mapped_below s''.words level table (q + k)
                    (subst (λ (x : ℕ). present (s''.words table x) ≡ true) (sym index) there')
                    (ap₂ (λ (x y : ℕ). mapped s''.words level (pointer (s''.words table x)) y) index
                        rest
                      ∙ ap (λ (x : ℕ). mapped s''.words level x (page level addr + k))
                          (same ∙ points)
                      ∙ done k kn (omega (arith, below, kc)))),
            )))

-- The rest of the loop after one entry, and with it the whole.
rest-IsDone :
    (level table addr n left left' : ℕ) (own' own'' : Owner) (s' s'' : Physical)
    → level < 4
    → part (suc level) addr < 511
    → IsClosed own' s'
    → Grows own' s' own'' s''
    → own' (suc level) table (part (suc level) addr) ≡ true
    → Filled level table addr n own' left s'
    → IsDone (suc level) table (next_entry level addr (part (suc level) addr)) left own'' left' s''
    → IsDone (suc level) table addr n own'' left' s''
rest-IsDone level table addr n left left' own' own'' s' s'' small inner v g o (count, filled)
      (count', done) =
    let q = page (suc level) addr in
    let sp = span level in
    let i = part (suc level) addr in
    let c = sp - q % sp in
    let pos = span_pos level in
    let at = part_lem level addr small in
    let (low, first, end, exact) =
      next_page q sp pos (mod-lt (addr / 4096) (span_pos (suc level))) in
    let next = next_entry_lem level addr i small inner in
    let second : page (suc level) (next_entry level addr i) ≡ q + c =
      next ∙ ap (λ (x : ℕ). (x + 1) * sp) at ∙ first in
    (
      omega (arith, count, count', second, first, end),
      (λ k kn kc. elim (dec_lt k c) [
        | yes near ↦
            mapped-Grows own' own'' s' s'' level table (q + k) v g
              (subst (λ (x : ℕ). own' (suc level) table x ≡ true)
                (sym (div_below q k sp pos near ∙ sym at)) o)
              (filled k kn near)
        | no far ↦
            let e : page (suc level) (next_entry level addr i) + (k - c) ≡ q + k =
              omega (arith, second) in
            subst (λ (x : ℕ). mapped s''.words (suc level) table x ≡ true) e
              (done (k - c) (omega (arith, count)) (omega (arith, second, kc)))
      ]),
    )

-- The last entry of a table.
last-IsDone :
    (level table addr n left : ℕ) (own : Owner) (s : Physical)
    → level < 4
    → part (suc level) addr ≡ 511
    → Filled level table addr n own left s
    → IsDone (suc level) table addr n own left s
last-IsDone level table addr n left own s small last (count, filled) =
    let q = page (suc level) addr in
    let sp = span level in
    let at = part_lem level addr small in
    let (low, first, end, exact) =
      next_page q sp (span_pos level) (mod-lt (addr / 4096) (span_pos (suc level))) in
    let top : 512 * sp ≡ q + (sp - q % sp) = ap (λ (x : ℕ). (x + 1) * sp) (sym last ∙ at) ∙ first in
    (omega (arith, count, top), λ k kn kc. filled k kn (omega (arith, top, kc)))

part-lt : (level addr : ℕ) → level < 4 → part (suc level) addr < 512
part-lt level addr small =
    let q = page (suc level) addr in
    let (low, first, end, exact) =
      next_page q (span level) (span_pos level) (mod-lt (addr / 4096) (span_pos (suc level))) in
    omega (arith, low, part_lem level addr small)

part-next :
    (level addr : ℕ)
    → level < 4
    → part (suc level) addr < 511
    → part (suc level) (next_entry level addr (part (suc level) addr)) ≡ part (suc level) addr + 1
part-next level addr small inner =
    let i = part (suc level) addr in
    part_lem level (next_entry level addr i) small
    ∙ ap (λ (x : ℕ). x / span level) (next_entry_lem level addr i small inner)
    ∙ mul-div_cancel (i + 1) (span_pos level)

setup_loop-After :
    (rounds level : ℕ) (child : ℕ → ℕ → ℕ → M ℕ) (is_writable : Bool) (own : Owner) (s : Physical)
    (table addr n : ℕ)
    → level < 4
    → Sets level child
    → 512 ≤ rounds + part (suc level) addr
    → IsClosed own s
    → ((j : ℕ) → part (suc level) addr ≤ j → own (suc level) table j ≡ true)
    → After own s
        (IsDone (suc level) table addr n)
        (setup_loop child is_writable level rounds table addr n s)
unfolding setup_loop
setup_loop-After zero level child is_writable own s table addr n small sets enough v o =
    absurd (omega (arith, enough, part-lt level addr small))
setup_loop-After (suc rounds) level child is_writable own s table addr n small sets enough v o =
    let i = part (suc level) addr in
    elim (Bool-cases (n == 0)) [
      | inl nothing ↦
          rw (setup_loop, nothing)
            (own, v, Grows-refl own s, (ground arith, λ k kn. absurd (ground arith)))
      | inr some_left ↦
          rw (setup_loop, some_left)
            (After-bind own s (Filled level table addr n) (IsDone (suc level) table addr n)
              (setup_entry child is_writable level table addr n)
              (λ left. elim (i == 511) [
                | true ↦ pure left
                | false ↦
                    setup_loop child is_writable level rounds table (next_entry level addr i) left
              ])
              v
              (setup_entry-Filled level child is_writable own s table addr n small sets v
                (o i (omega arith)))
              (λ own' left s' w g filled. elim (Bool-cases (i == 511)) [
                | inl last ↦ rw last (
                  own',
                  w,
                  Grows-refl own' s',
                  last-IsDone level table addr n left own' s' small (ground arith) filled,
                )
                | inr more ↦
                    let inner : i < 511 = ground (arith, part-lt level addr small) in
                    let next = next_entry level addr i in
                    let kept : (j : ℕ) → i ≤ j → own' (suc level) table j ≡ true = λ j h.
                      g.owned (suc level) table j (v.allocated (suc level) table j (o j h))
                      ∙ o j h in
                    rw more (
                      After-map own' s' (IsDone (suc level) table next left)
                        (IsDone (suc level) table addr n) _
                        (setup_loop-After rounds level child is_writable own' s' table next left
                          small sets (omega (arith, enough, part-next level addr small inner)) w
                          (λ j h. kept j (omega (arith, h, part-next level addr small inner))))
                        (λ own'' left' s'' g' done.
                          rest-IsDone level table addr n left left' own' own'' s' s'' small inner w
                            g' (kept i (omega arith)) filled done))
              ]))
    ]

pub setup_page_map-Sets :
    (level : ℕ) (is_writable : Bool) → level ≤ 4 → Sets level (setup_page_map level is_writable)
unfolding setup_page_map mapped
setup_page_map-Sets zero is_writable small own s table addr n v o =
    (own, v, Grows-refl own s, (omega arith, λ k kn kc. refl))
setup_page_map-Sets (suc level) is_writable small own s table addr n v o =
    setup_loop-After 512 level (setup_page_map level is_writable) is_writable own s table addr n
      small (setup_page_map-Sets level is_writable (omega arith)) (omega arith) v o

-- `SetupPageMaps` ends, also when memory runs out. When it succeeds,
-- every page asked for, up to the end of the address space of the tables, is mapped through four levels
-- of present entries that point to tables in use. In both cases the tables stay well-formed and grow:
-- frames stay allocated, entries that were present point where they did, and no word of an allocated
-- frame changes that is no entry of a table.
pub setup_page_maps_lem :
    (is_writable : Bool) (own : Owner) (s : Physical) (cr3 addr n : ℕ)
    → IsClosed own s
    → ((j : ℕ) → part 4 addr ≤ j → own 4 cr3 j ≡ true)
    → After own s (IsDone 4 cr3 addr n) (setup_page_maps cr3 is_writable addr n s)
unfolding setup_page_maps
setup_page_maps_lem is_writable own s cr3 addr n v o =
    setup_page_map-Sets 4 is_writable (omega arith) own s cr3 addr n v o
