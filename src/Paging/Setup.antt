-- ===== src/Paging/Setup.antt =====
-- SetupPageMap maps the pages that it is asked for.
pub mod Digits
pub mod Round
use mikan_os.Prelude.{
  ℕ, zero, suc, ◌+◌, ◌-◌, ◌*◌, ◌/◌, ◌%◌, ◌^◌, ◌<◌, ◌≤◌, ◌≡◌, ◌≢◌, refl, ◌∙◌, ap, ap₂, sym, Bool,
  true, false, ◌&&◌, ◌==◌, min, if◌then◌else◌, arith, Bool-cases, inl, inr, subst,
}
use mikan_os.Error.{Code}
use mikan_os.Memory.{get_bit}
use mikan_os.Paging.{
  Physical, Result, ok, err, stuck, M, ◌>>=◌, ◌>>◌, pure, present, pointer, set_pointer,
  set_present, set_writable, set_user, entry, put_entry, new_page_map, set_new_page_map,
  set_new_page_map_if_not_present, setup_entry, part,
}
use mikan_os.Paging.Entry.{linked_entry, granted_entry}
use mikan_os.Paging.Owned.{Owner, IsClosed, Grows, Grows-refl, Grows-trans}
use mikan_os.Paging.Steps.{After, After-later, After-bind, put_entry-Grows, new_page_map-After}

-- The entry is present and points to a table or page in use.
abbrev pub IsLinked : (level table i : ℕ) → Owner → ℕ → Physical → Type 0
IsLinked level table i own child s =
    (present (s.words table i) ≡ true)
    × (pointer (s.words table i) ≡ child)
    × ((j : ℕ) → own level child j ≡ true)

set_new_page_map-After :
    (own : Owner) (s : Physical) (level table i : ℕ)
    → IsClosed own s
    → own (suc level) table i ≡ true
    → present (s.words table i) ≡ false
    → After own s (IsLinked level table i) (set_new_page_map table i s)
unfolding set_new_page_map entry put_entry
set_new_page_map-After own s level table i v o absent =
    After-bind own s _ (IsLinked level table i) new_page_map
      (λ child.
        entry table i >>= λ e. put_entry table i (set_present (set_pointer e child)) >> pure child)
      v (new_page_map-After own s table i v)
      (λ own' child s' w g (lt, all, same).
        let e = set_present (set_pointer (s'.words table i) child) in
        let (there, points) = linked_entry (s'.words table i) child lt in
        let kept = same table i (v.allocated (suc level) table i o) in
        let o' = g.owned (suc level) table i (v.allocated (suc level) table i o) ∙ o in
        let (closed, grows) =
          put_entry-Grows own' s' level table i e w o'
            (λ there'. absurd (ground (arith, ap (λ n. present n) kept, absent)))
            (λ p k o'' j.
              let o''' = sym (g.owned (suc k) table i (v.allocated (suc level) table i o)) ∙ o'' in
              subst (λ c. own' k c j ≡ true) (sym points) (all k j o''')) in
        let self : (table == table && i == i) ≡ true = ground arith in
        (own', closed, grows, rw self (there, points, (λ j. all level j o))))

pub set_new_page_map_if_not_present-After :
    (own : Owner) (s : Physical) (level table i : ℕ)
    → IsClosed own s
    → own (suc level) table i ≡ true
    → After own s (IsLinked level table i) (set_new_page_map_if_not_present table i s)
unfolding set_new_page_map_if_not_present entry
set_new_page_map_if_not_present-After own s level table i v o =
    elim (Bool-cases (present (s.words table i))) [
      | inl there ↦
          rw (set_new_page_map_if_not_present, there)
            (own, v, Grows-refl own s, (there, refl, v.child level table i o there))
      | inr absent ↦
          rw (set_new_page_map_if_not_present, absent)
            (set_new_page_map-After own s level table i v o absent)
    ]

-- What `setup_entry` writes to the entry: `user` and `writable`.
grant-After :
    (own : Owner) (s : Physical) (level table i child : ℕ) (b : Bool)
    → IsClosed own s
    → own (suc level) table i ≡ true
    → IsLinked level table i own child s
    → let e = set_writable b (set_user (s.words table i)) in
      let s' = record s { words = λ f j. if f == table && j == i then e else s.words f j } in
      IsClosed own s' × Grows own s own s' × IsLinked level table i own child s'
grant-After own s level table i child b v o (there, points, all) =
    let old = s.words table i in
    let e = set_writable b (set_user old) in
    let (same, same', w, u) = granted_entry old b in
    let (closed, grows) =
      put_entry-Grows own s level table i e v o (λ there'. (same ∙ there', same'))
        (λ p k o' j. subst (λ c. own k c j ≡ true) (sym same') (v.child k table i o' there j)) in
    let self : (table == table && i == i) ≡ true = ground arith in
    (closed, grows, rw self (same ∙ there, same' ∙ points, all))

-- One round: the entry is present, and the call of the next level has its result.
pub setup_entry-After :
    (child : ℕ → ℕ → ℕ → M ℕ) (is_writable : Bool) (own : Owner) (s : Physical)
    (level table addr n : ℕ) (Q : Owner → ℕ → Physical → Type 0)
    → let i = part (suc level) addr in
      IsClosed own s
      → own (suc level) table i ≡ true
      → ((own' : Owner) (t : ℕ) (s' : Physical)
          → IsClosed own' s'
          → Grows own s own' s'
          → IsLinked level table i own' t s'
          → After own' s' Q (child t addr n s'))
      → After own s Q (setup_entry child is_writable level table addr n s)
unfolding setup_entry entry put_entry
setup_entry-After child is_writable own s level table addr n Q v o next =
    let i = part (suc level) addr in
    let b = if level == 0 then is_writable else true in
    After-bind own s (IsLinked level table i) Q (set_new_page_map_if_not_present table i)
      (λ t.
        entry table i >>= λ e. put_entry table i (set_writable b (set_user e)) >> child t addr n)
      v (set_new_page_map_if_not_present-After own s level table i v o)
      (λ own' t s' w g linked.
        let o' = g.owned (suc level) table i (v.allocated (suc level) table i o) ∙ o in
        let (closed, grows, linked') = grant-After own' s' level table i t b w o' linked in
        After-later own' own' s' _ Q _ w grows
          (next own' t _ closed (Grows-trans own own' own' s s' _ v g grows) linked'))
