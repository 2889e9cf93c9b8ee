-- ===== src/Paging/Copy/Linked.antt =====
-- An entry of CopyPageMaps that gets a new table: what holds before and after the copy of the next level.
use mikan_os.Prelude.{
  ℕ, suc, ◌+◌, ◌/◌, ◌%◌, ◌<◌, ◌≤◌, ◌≡◌, ◌≢◌, refl, ◌∙◌, ap, sym, true, false, ◌&&◌, ◌==◌,
  if◌then◌else◌, arith, subst,
}
use native.Mathlib.Nat.{mod-lt}
use mikan_os.Memory.{get_bit}
use mikan_os.Paging.{Physical, present, pointer, set_pointer}
use mikan_os.Paging.Address.{span}
use mikan_os.Paging.Entry.{pointer_entry}
use mikan_os.Paging.Steps.{NewTable}
use mikan_os.Paging.Setup.Digits.{span_pos, next_page}
use mikan_os.Paging.Copy.Tree.{leaf_of, Tree, Moves, Tree-map, leaf_of-Tree, Keeps}
use mikan_os.Paging.Copy.Entries.{shared, Copied, IsReady}

-- The state after two writes to the entry `i` of `dest`, where the second changes what the first wrote.
abbrev pub updated : (dest i e : ℕ) → (ℕ → ℕ) → Physical → Physical
updated dest i e change s =
    let w : ℕ → ℕ → ℕ = λ f j. if f == dest && j == i then e else s.words f j in
    record s { words = λ f j. if f == dest && j == i then change (w dest i) else w f j }

pub updated_here :
    (dest i e : ℕ) (change : ℕ → ℕ) (s : Physical)
    → (updated dest i e change s).words dest i ≡ change e
updated_here dest i e change s =
    let self : (dest == dest && i == i) ≡ true = ground arith in rw self refl

pub updated_there :
    (dest i e : ℕ) (change : ℕ → ℕ) (s : Physical) (f j : ℕ)
    → (f == dest && j == i) ≡ false
    → (updated dest i e change s).words f j ≡ s.words f j
updated_there dest i e change s f j h = rw h refl

-- The state in which the entry points to the new table.
abbrev pub with_table : (s : Physical) → NewTable s → Physical
with_table s t = record {
  words = λ f j. if f == t.frame then 0 else s.words f j;
  manager = t.after;
}

abbrev pub linked : (dest src i : ℕ) (s : Physical) → NewTable s → Physical
linked dest src i s t =
    let s1 = with_table s t in updated dest i (s1.words src i) (λ d. set_pointer d t.frame) s1

module _ (level dest src i : ℕ) (s : Physical) (lt : i < 512) (r : IsReady (suc level) dest src i s)
    (t : NewTable s) (there : present (s.words src i) ≡ true) where
  used_apart : (f : ℕ) → get_bit s.manager f ≡ true → (f == t.frame) ≡ false
  used_apart f b = let n = t.unused in ground (arith, b, n)

  still_used : (f : ℕ) → get_bit s.manager f ≡ true → get_bit t.after f ≡ true
  still_used f b = ground (arith, t.marked f, b)

  free_before : (f : ℕ) → get_bit t.after f ≡ false → get_bit s.manager f ≡ false
  free_before f b = ground (arith, t.marked f, b)

  table_apart : t.frame ≢ dest
  table_apart e = let n = used_apart dest r.dest_used in absurd (ground (arith, n, e))

  linked_kept :
      (f j : ℕ)
      → get_bit s.manager f ≡ true
      → (f == dest && j == i) ≡ false
      → (linked dest src i s t).words f j ≡ s.words f j
  linked_kept f j b n =
      updated_there dest i ((with_table s t).words src i) (λ d. set_pointer d t.frame)
        (with_table s t) f j n
      ∙ rw (used_apart f b) refl

  pub linked_source : (linked dest src i s t).words src i ≡ s.words src i
  linked_source = let n = r.apart in linked_kept src i r.src_used (ground (arith, n))

  linked_empty : (j : ℕ) → (linked dest src i s t).words t.frame j ≡ 0
  linked_empty j =
      let n = table_apart in
      let self : (t.frame == t.frame) ≡ true = ground arith in
      updated_there dest i ((with_table s t).words src i) (λ d. set_pointer d t.frame)
        (with_table s t) t.frame j (ground (arith, n))
      ∙ rw self refl

  linked_here :
      let d = (linked dest src i s t).words dest i in (present d ≡ true) × (pointer d ≡ t.frame)
  linked_here =
      let e1 = (with_table s t).words src i in
      let same : e1 ≡ s.words src i = rw (used_apart src r.src_used) refl in
      let here = updated_here dest i e1 (λ d. set_pointer d t.frame) (with_table s t) in
      let (kept, points) = pointer_entry e1 t.frame t.small in
      (
        ap (λ (x : ℕ). present x) here ∙ (kept ∙ (ap (λ (x : ℕ). present x) same ∙ there)),
        ap pointer here ∙ points,
      )

  -- The tables behind the old entry are there when its table is copied.
  linked_Moves :
      Moves
        (λ f. (get_bit s.manager f ≡ true) × (f ≢ dest))
        (λ f. (get_bit t.after f ≡ true) × (f ≢ t.frame))
        s.words
        (linked dest src i s t).words
  linked_Moves f (b, n) =
      let n' = used_apart f b in
      (
        (still_used f b, λ e. absurd (ground (arith, n', e))),
        λ j h. linked_kept f j b (ground (arith, n)),
      )

  pub linked_IsReady : IsReady level t.frame (pointer (s.words src i)) 0 (linked dest src i s t)
  linked_IsReady =
      let (p, sub) = r.source i (omega arith) lt there in
      let ((used, apart), same) = linked_Moves (pointer (s.words src i)) p in
      record {
        valid = t.valid;
        dest_used =
            (let self : (t.frame == t.frame) ≡ true = ground arith in
              t.marked t.frame ∙ rw self refl);
        src_used = used;
        apart = apart;
        absent = λ j h b. ap (λ (x : ℕ). present x) (linked_empty j);
        source = λ j h b.
            subst
              (λ (x : ℕ).
                Tree (λ f. (get_bit t.after f ≡ true) × (f ≢ t.frame)) (linked dest src i s t).words
                  level x)
              (sym (same j b))
              (Tree-map _ _ s.words (linked dest src i s t).words level
                (s.words (pointer (s.words src i)) j) linked_Moves (sub j b));
      }

  -- What the copy in the new table is for the table above.
  pub below-Keeps :
      (s' : Physical) → Keeps t.frame 0 512 (linked dest src i s t) s' → Keeps dest i (i + 1) s s'
  below-Keeps s' k = record {
    valid = k.valid;
    bits = λ f b. k.bits f (still_used f b);
    same = λ f j b n.
        let n' = used_apart f b in
        k.same f j (still_used f b) (ground (arith, n')) ∙ linked_kept f j b (ground (arith, n));
  }

  pub below-Copied :
      (s' : Physical)
      → Keeps t.frame 0 512 (linked dest src i s t) s'
      → ((j : ℕ)
          → 0 ≤ j
          → j < 512
          → Copied level t.frame (pointer (s.words src i)) j (linked dest src i s t) s')
      → Copied (suc level) dest src i s s'
  unfolding leaf_of
  below-Copied s' k done =
      let s2 = linked dest src i s t in
      let old = pointer (s.words src i) in
      let (here, points) = linked_here in
      let n = table_apart in
      let marked = k.bits t.frame linked_IsReady.dest_used in
      let same : s'.words dest i ≡ s2.words dest i =
        k.same dest i (still_used dest r.dest_used) (ground (arith, n)) in
      let here' = ap (λ (x : ℕ). present x) same ∙ here in
      let points' = ap pointer same ∙ points in
      let Q = λ (f : ℕ). (get_bit s.manager f ≡ false) × (get_bit s'.manager f ≡ true) in
      let (p, sub) = r.source i (omega arith) lt there in
      let (p', kept) = linked_Moves old p in
      (
        (λ yes. (
          subst Q (sym points') (t.unused, marked),
          λ j h.
              subst (λ (x : ℕ). Tree Q s'.words level (s'.words x j)) (sym points')
                (Tree-map (λ f. (get_bit t.after f ≡ false) × (get_bit s'.manager f ≡ true)) Q
                  s'.words s'.words level (s'.words t.frame j)
                  (λ f u. ((free_before f u.0, u.1), λ m b. refl)) (done j (omega arith) h).0),
        )),
        (λ q h.
            let j = q / span level in
            let m = q % span level in
            let (low, first, end, exact) = next_page q (span level) (span_pos level) h in
            let (tree, leaf) = done j (omega arith) low in
            rw (here', there)
              (ap (λ (x : ℕ). leaf_of s'.words level (s'.words x j) m) points'
                ∙ leaf m (mod-lt q (span_pos level))
                ∙ ap shared (
                    ap (λ (x : ℕ). leaf_of s2.words level x m) (kept j low)
                    ∙ leaf_of-Tree _ _ s.words s2.words level (s.words old j) linked_Moves
                        (sub j low) m (mod-lt q (span_pos level))))),
      )
