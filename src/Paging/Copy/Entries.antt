-- ===== src/Paging/Copy/Entries.antt =====
-- The loop of CopyPageMaps over the entries of a table.
use mikan_os.Prelude.{
  ℕ, zero, suc, ◌+◌, ◌<◌, ◌≤◌, ◌≡◌, ◌≢◌, refl, ◌∙◌, ap, sym, true, false, arith, Bool-cases, inl,
  inr, subst, Option, none, some,
}
use native.Mathlib.Decide.{dec_lt}
use mikan_os.Error.{Code}
use mikan_os.Memory.{get_bit}
use mikan_os.Memory.Bitmap.{IsValid}
use mikan_os.Paging.{Physical, Result, ok, err, stuck, M, ◌>>◌, present, set_writable}
use mikan_os.Paging.Address.{span}
use mikan_os.Paging.Copy.{each_entry}
use mikan_os.Paging.Copy.Tree.{
  leaf_of, Tree, Moves, Tree-map, leaf_of-Tree, Keeps, Keeps-refl, Keeps-trans,
}

-- The entry of a page in the copy: as the old one, but read-only.
abbrev pub shared : Option ℕ → Option ℕ
shared none = none
shared (some e) = some (set_writable false e)

-- The copied entry `i` leads to the pages that the old one leads to, but read-only, through tables in
-- frames that were free.
abbrev pub Copied : (level dest src i : ℕ) → (s s' : Physical) → Type 0
Copied level dest src i s s' =
    Tree (λ f. (get_bit s.manager f ≡ false) × (get_bit s'.manager f ≡ true)) s'.words level
      (s'.words dest i)
    × ((q : ℕ)
        → q < span level
        → leaf_of s'.words level (s'.words dest i) q
          ≡ shared (leaf_of s.words level (s.words src i) q))

-- What holds when the entries of `src` from `start` on are to be copied to `dest`: the tables behind
-- them are in use, `dest` is not one of them, and its entries are absent.
pub record IsReady (level dest src start : ℕ) (s : Physical) : Type 0 where
  pub valid : IsValid s.manager
  pub dest_used : get_bit s.manager dest ≡ true
  pub src_used : get_bit s.manager src ≡ true
  pub apart : src ≢ dest
  pub absent : (j : ℕ) → start ≤ j → j < 512 → present (s.words dest j) ≡ false
  pub source :
      (j : ℕ)
      → start ≤ j
      → j < 512
      → Tree (λ f. (get_bit s.manager f ≡ true) × (f ≢ dest)) s.words level (s.words src j)

-- The copy ends, and has the result `P` or reports that memory ran out.
abbrev pub Copies : (dest lo hi : ℕ) → Physical → (Physical → Type 0) → Result (Unit {0}) → Type 0
Copies dest lo hi s P (ok a s') = Keeps dest lo hi s s' × P s'
Copies dest lo hi s P (err c s') = Keeps dest lo hi s s' × (c ≡ Code.no_enough_memory)
Copies dest lo hi s P stuck = ⊥

Keeps-Moves :
    (dest lo hi : ℕ) (s s' : Physical)
    → Keeps dest lo hi s s'
    → Moves
        (λ f. (get_bit s.manager f ≡ true) × (f ≢ dest))
        (λ f. (get_bit s'.manager f ≡ true) × (f ≢ dest))
        s.words
        s'.words
Keeps-Moves dest lo hi s s' k f (b, n) = ((k.bits f b, n), λ j lt. k.same f j b (ground arith))

IsReady-Keeps :
    (level dest src i : ℕ) (s s' : Physical)
    → IsReady level dest src i s
    → Keeps dest i (i + 1) s s'
    → IsReady level dest src (i + 1) s'
IsReady-Keeps level dest src i s s' r k =
    let apart = r.apart in
    record {
      valid = k.valid;
      dest_used = k.bits dest r.dest_used;
      src_used = k.bits src r.src_used;
      apart = r.apart;
      absent = λ j h lt.
          ap (λ (x : ℕ). present x) (k.same dest j r.dest_used (ground arith))
          ∙ r.absent j (omega (arith, h)) lt;
      source = λ j h lt.
          let same = k.same src j r.src_used (ground (arith, apart)) in
          subst (λ (x : ℕ). Tree (λ f. (get_bit s'.manager f ≡ true) × (f ≢ dest)) s'.words level x)
            (sym same)
            (Tree-map _ _ s.words s'.words level (s.words src j) (Keeps-Moves dest i (i + 1) s s' k)
              (r.source j (omega (arith, h)) lt));
    }

-- What was copied stays as it is in the rounds after.
Copied-later :
    (level dest src i : ℕ) (s s' s'' : Physical)
    → get_bit s.manager dest ≡ true
    → get_bit s'.manager dest ≡ true
    → Copied level dest src i s s'
    → Keeps dest (i + 1) 512 s' s''
    → Copied level dest src i s s''
Copied-later level dest src i s s' s'' u u' (tree, leaf) k =
    let same = k.same dest i u' (ground arith) in
    let P = λ (f : ℕ). (get_bit s.manager f ≡ false) × (get_bit s'.manager f ≡ true) in
    let Q = λ (f : ℕ). (get_bit s.manager f ≡ false) × (get_bit s''.manager f ≡ true) in
    let moves : Moves P Q s'.words s''.words = λ f p.
      let (free, used) = p in
      let other : f ≢ dest = λ e. (let b = ap (λ (x : ℕ). get_bit s.manager x) e in absurd (cc)) in
      ((free, k.bits f used), λ j lt. k.same f j used (ground (arith, other))) in
    (
      subst (λ (x : ℕ). Tree Q s''.words level x) (sym same)
          (Tree-map P Q s'.words s''.words level (s'.words dest i) moves tree),
      λ q lt.
          ap (λ (x : ℕ). leaf_of s''.words level x q) same
          ∙ (leaf_of-Tree P Q s'.words s''.words level (s'.words dest i) moves tree q lt
              ∙ leaf q lt),
    )

-- What later rounds copy is what was there before the first.
Copied-earlier :
    (level dest src i j : ℕ) (s s' s'' : Physical)
    → IsReady level dest src i s
    → Keeps dest i (i + 1) s s'
    → i ≤ j
    → j < 512
    → Copied level dest src j s' s''
    → Copied level dest src j s s''
Copied-earlier level dest src i j s s' s'' r k h lt (tree, leaf) =
    let apart = r.apart in
    let same = k.same src j r.src_used (ground (arith, apart)) in
    let P = λ (f : ℕ). (get_bit s'.manager f ≡ false) × (get_bit s''.manager f ≡ true) in
    let Q = λ (f : ℕ). (get_bit s.manager f ≡ false) × (get_bit s''.manager f ≡ true) in
    let was_free : (f : ℕ) → get_bit s'.manager f ≡ false → get_bit s.manager f ≡ false = λ f n.
      elim (Bool-cases (get_bit s.manager f)) [
        | inr e ↦ e
        | inl e ↦ (let b = k.bits f e in absurd (cc))
      ] in
    (
      Tree-map P Q s''.words s''.words level (s''.words dest j)
          (λ f p. ((was_free f p.0, p.1), λ n b. refl)) tree,
      λ q b.
          leaf q b
          ∙ ap shared (
              ap (λ (x : ℕ). leaf_of s'.words level x q) same
              ∙ leaf_of-Tree _ _ s.words s'.words level (s.words src j)
                  (Keeps-Moves dest i (i + 1) s s' k) (r.source j h lt) q b),
    )

pub Copies-bind :
    (dest lo mid hi : ℕ) (s : Physical) (P Q : Physical → Type 0) (m m' : M (Unit {0}))
    → lo ≤ mid
    → mid ≤ hi
    → Copies dest lo mid s P (m s)
    → ((s' : Physical) → Keeps dest lo mid s s' → P s' → Copies dest mid hi s' Q (m' s'))
    → Copies dest lo hi s Q ((m >> m') s)
Copies-bind dest lo mid hi s P Q m m' a b h next = go (m s) h
  where
    widen :
        (s' : Physical) (r : Result (Unit {0}))
        → Keeps dest lo mid s s'
        → Copies dest mid hi s' Q r
        → Copies dest lo hi s Q r
    widen s' (ok x s'') k (k', q) = (Keeps-trans dest lo mid hi s s' s'' a b k k', q)
    widen s' (err c s'') k (k', e) = (Keeps-trans dest lo mid hi s s' s'' a b k k', e)
    widen s' stuck k never = never

    go :
        (r : Result (Unit {0}))
        → Copies dest lo mid s P r
        → Copies dest lo hi s Q (elim r [ ok x s' ↦ m' s' | err e s' ↦ err e s' | stuck ↦ stuck ])
    go (ok x s') (k, p) = widen s' (m' s') k (next s' k p)
    go (err c s') (k, e) =
        (Keeps-trans dest lo mid hi s s' s' a b k (Keeps-refl dest mid hi s' k.valid), e)
    go stuck never = never

pub Copies-map :
    (dest lo hi : ℕ) (s : Physical) (P Q : Physical → Type 0) (r : Result (Unit {0}))
    → Copies dest lo hi s P r
    → ((s' : Physical) → Keeps dest lo hi s s' → P s' → Q s')
    → Copies dest lo hi s Q r
Copies-map dest lo hi s P Q (ok x s') (k, p) f = (k, f s' k p)
Copies-map dest lo hi s P Q (err c s') h f = h
Copies-map dest lo hi s P Q stuck never f = never

-- The loop copies all entries from the first on, if a round copies its entry.
pub each_entry-Copies :
    (level dest src : ℕ) (round : ℕ → M (Unit {0}))
    → ((i : ℕ) (s : Physical)
        → i < 512
        → IsReady level dest src i s
        → Copies dest i (i + 1) s (Copied level dest src i s) (round i s))
    → (n i : ℕ) (s : Physical) → n + i ≡ 512
    → IsReady level dest src i s
    → Copies dest i 512 s
        (λ s'. (j : ℕ) → i ≤ j → j < 512 → Copied level dest src j s s')
        (each_entry round n i s)
unfolding each_entry
each_entry-Copies level dest src round works zero i s e r =
    (Keeps-refl dest i 512 s r.valid, λ j h lt. absurd (omega (arith, e, h, lt)))
each_entry-Copies level dest src round works (suc n) i s e r =
    Copies-bind dest i (i + 1) 512 s (Copied level dest src i s) _ (round i)
      (each_entry round n (i + 1)) (omega arith) (omega (arith, e)) (works i s (omega (arith, e)) r)
      (λ s' k done.
        Copies-map dest (i + 1) 512 s'
          (λ s''. (j : ℕ) → i + 1 ≤ j → j < 512 → Copied level dest src j s' s'')
          (λ s''. (j : ℕ) → i ≤ j → j < 512 → Copied level dest src j s s'')
          (each_entry round n (i + 1) s')
          (each_entry-Copies level dest src round works n (i + 1) s' (omega (arith, e))
            (IsReady-Keeps level dest src i s s' r k))
          (λ s'' k' rest j h lt. elim (dec_lt i j) [
            | yes later ↦
                Copied-earlier level dest src i j s s' s'' r k h lt
                  (rest j (omega (arith, later)) lt)
            | no now ↦
                let e' : i ≡ j = omega (arith, h, now) in
                subst (λ (x : ℕ). Copied level dest src x s s'') e'
                  (Copied-later level dest src i s s' s'' r.dest_used (k.bits dest r.dest_used) done
                    k')
          ]))
