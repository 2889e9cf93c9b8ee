-- ===== src/Paging/Copy/Levels.antt =====
-- The rounds of CopyPageMaps, and the levels of tables above each other.
use mikan_os.Prelude.{
  ℕ, zero, suc, ◌+◌, ◌-◌, ◌<◌, ◌≤◌, ◌≡◌, refl, ◌∙◌, ap, sym, true, false, arith, Bool-cases, inl,
  inr, subst, some,
}
use mikan_os.Error.{Code}
use mikan_os.Paging.{
  Physical, Result, ok, err, stuck, M, ◌>>=◌, ◌>>◌, entry, put_entry, present, pointer, set_pointer,
  set_writable, new_page_map,
}
use mikan_os.Paging.Entry.{writable_entry}
use mikan_os.Paging.Steps.{new_page_map-cases, bind_ok, bind_err}
use mikan_os.Paging.Copy.{copy_leaf, copy_table, copy_branch, copy_page_maps}
use mikan_os.Paging.Copy.Tree.{leaf_of, Keeps, Keeps-refl}
use mikan_os.Paging.Copy.Entries.{Copied, IsReady, Copies, each_entry-Copies}
use mikan_os.Paging.Copy.Linked.{
  updated_here, updated_there, with_table, linked, linked_source, linked_IsReady, below-Keeps,
  below-Copied,
}

-- An absent entry is not copied.
absent-Copied :
    (level dest src i : ℕ) (s : Physical)
    → i < 512
    → IsReady level dest src i s
    → present (s.words src i) ≡ false
    → Copied level dest src i s s
unfolding leaf_of
absent-Copied zero dest src i s lt r e =
    let e' = r.absent i (omega arith) lt in (tt, λ q h. rw (e, e') refl)
absent-Copied (suc level) dest src i s lt r e =
    let e' = r.absent i (omega arith) lt in ((λ there. absurd (cc)), λ q h. rw (e, e') refl)

copy_leaf-Copies :
    (dest src i : ℕ) (s : Physical)
    → i < 512
    → IsReady 0 dest src i s
    → Copies dest i (i + 1) s (Copied 0 dest src i s) (copy_leaf dest src i s)
unfolding copy_leaf entry put_entry leaf_of
copy_leaf-Copies dest src i s lt r =
    let e = s.words src i in
    elim (Bool-cases (present e)) [
      | inr absent ↦
          rw (copy_leaf, absent)
            (Keeps-refl dest i (i + 1) s r.valid, absent-Copied 0 dest src i s lt r absent)
      | inl there ↦
          let here = updated_here dest i e (set_writable false) s in
          let (kept, points, w) = writable_entry e false in
          let there' = ap (λ (x : ℕ). present x) here ∙ (kept ∙ there) in
          rw (copy_leaf, there)
            (
              record {
                valid = r.valid;
                bits = λ f b. b;
                same = λ f j b n. updated_there dest i e (set_writable false) s f j (ground arith);
              },
              (tt, λ q h. rw (there', there) (ap (λ (x : ℕ). some x) here)),
            )
    ]

-- A copy in a new table, as one round of the table above.
Copies-inside :
    (table dest lo hi lo' hi' : ℕ) (s s' : Physical) (P Q : Physical → Type 0)
    (r : Result (Unit {0}))
    → Copies table lo hi s' P r
    → ((s'' : Physical) → Keeps table lo hi s' s'' → Keeps dest lo' hi' s s'')
    → ((s'' : Physical) → Keeps table lo hi s' s'' → P s'' → Q s'')
    → Copies dest lo' hi' s Q r
Copies-inside table dest lo hi lo' hi' s s' P Q (ok x s'') (k, p) f g = (f s'' k, g s'' k p)
Copies-inside table dest lo hi lo' hi' s s' P Q (err c s'') (k, e) f g = (f s'' k, e)
Copies-inside table dest lo hi lo' hi' s s' P Q stuck never f g = never

-- What the loop needs of the copy of the next level.
abbrev CopiesBelow : ℕ → (ℕ → ℕ → M (Unit {0})) → Type 0
CopiesBelow level child =
    (table old : ℕ) (s : Physical)
    → IsReady level table old 0 s
    → Copies table 0 512 s (λ s'. (j : ℕ) → 0 ≤ j → j < 512 → Copied level table old j s s')
        (child table old s)

copy_table-Copies :
    (level : ℕ) (child : ℕ → ℕ → M (Unit {0})) (dest src i : ℕ) (s : Physical)
    → CopiesBelow level child
    → i < 512
    → IsReady (suc level) dest src i s
    → present (s.words src i) ≡ true
    → Copies dest i (i + 1) s (Copied (suc level) dest src i s) (copy_table child dest src i s)
unfolding copy_table entry put_entry
copy_table-Copies level child dest src i s below lt r there =
    let P = Copies dest i (i + 1) s (Copied (suc level) dest src i s) in
    let rest : ℕ → M (Unit {0}) = λ table. entry src i >>= λ e.
    put_entry dest i e
    >> (entry dest i >>= λ d.
        put_entry dest i (set_pointer d table)
        >> (entry src i >>= λ e'. child table (pointer e'))) in
    elim (new_page_map-cases s r.valid) [
      | inr e ↦
          subst P (sym (bind_err new_page_map rest s s Code.no_enough_memory e))
            (Keeps-refl dest i (i + 1) s r.valid, refl)
      | inl t ↦
          let s2 = linked dest src i s t in
          subst P
            (sym (
              bind_ok new_page_map rest s (with_table s t) t.frame t.result
              ∙ ap (λ (x : ℕ). child t.frame (pointer x) s2)
                  (linked_source level dest src i s lt r t there)))
            (Copies-inside t.frame dest 0 512 i (i + 1) s s2 _ (Copied (suc level) dest src i s)
              (child t.frame (pointer (s.words src i)) s2)
              (below t.frame (pointer (s.words src i)) s2
                (linked_IsReady level dest src i s lt r t there))
              (below-Keeps level dest src i s lt r t there)
              (below-Copied level dest src i s lt r t there))
    ]

copy_branch-Copies :
    (level : ℕ) (child : ℕ → ℕ → M (Unit {0})) (dest src i : ℕ) (s : Physical)
    → CopiesBelow level child
    → i < 512
    → IsReady (suc level) dest src i s
    → Copies dest i (i + 1) s (Copied (suc level) dest src i s) (copy_branch child dest src i s)
unfolding copy_branch entry
copy_branch-Copies level child dest src i s below lt r =
    elim (Bool-cases (present (s.words src i))) [
      | inr absent ↦
          rw (copy_branch, absent)
            (
              Keeps-refl dest i (i + 1) s r.valid,
              absent-Copied (suc level) dest src i s lt r absent,
            )
      | inl there ↦
          rw (copy_branch, there) (copy_table-Copies level child dest src i s below lt r there)
    ]

-- `CopyPageMaps` of tables of any level, from an entry on, to a table whose entries are absent from
-- there on and that is none of those that are copied: it ends, with success or because memory ran out.
-- In both cases frames stay allocated, and of those nothing changes but the entries of the copy. After
-- success each of these leads to exactly the pages that the old one leads to, whose entries are as the
-- old ones but read-only, and the tables on the way lie in frames that were free before.
pub copy_page_maps_lem :
    (level dest src start : ℕ) (s : Physical)
    → start ≤ 512
    → IsReady level dest src start s
    → Copies dest start 512 s
        (λ s'. (j : ℕ) → start ≤ j → j < 512 → Copied level dest src j s s')
        (copy_page_maps (suc level) dest src start s)
unfolding copy_page_maps
copy_page_maps_lem zero dest src start s h r =
    each_entry-Copies 0 dest src (copy_leaf dest src)
      (λ i t lt r'. copy_leaf-Copies dest src i t lt r') (512 - start) start s (omega (arith, h)) r
copy_page_maps_lem (suc level) dest src start s h r =
    let child : ℕ → ℕ → M (Unit {0}) = λ table old. copy_page_maps (suc level) table old 0 in
    each_entry-Copies (suc level) dest src (copy_branch child dest src)
      (λ i t lt r'.
        copy_branch-Copies level child dest src i t
          (λ table old t' r''. copy_page_maps_lem level table old 0 t' (omega arith) r'') lt r')
      (512 - start) start s (omega (arith, h)) r
