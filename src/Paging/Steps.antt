-- ===== src/Paging/Steps.antt =====
-- What the parts of SetupPageMap do to the tables in use.
use mikan_os.Prelude.{
  ℕ, suc, ◌^◌, ◌<◌, ◌≡◌, refl, ◌∙◌, ap, ap₂, sym, true, false, ◌||◌, ◌&&◌, ◌==◌, some,
  if◌then◌else◌, arith, Bool-cases, ◌⊎◌, inl, inr, subst, if_split,
}
use mikan_os.Error.{Code}
use mikan_os.Memory.{BitmapMemoryManager, null_frame, mark_allocated, get_bit, allocate}
use mikan_os.Memory.Bitmap.{IsValid}
use mikan_os.Memory.FirstFit.{allocate-FirstFit}
use mikan_os.Memory.Alloc.{granted, granted-IsValid, granted_unused, get_bit-granted}
use mikan_os.Paging.{
  Physical, Result, ok, err, stuck, M, ◌>>=◌, ◌>>◌, pure, present, pointer, fill_frame,
  allocate_frame, new_page_map,
}
use mikan_os.Paging.Owned.{Owner, IsApart, IsClosed, Grows, Grows-refl, Grows-trans}

-- The tables in use grow, also when memory runs out; and a call that succeeds has the result `P`.
abbrev pub After :
    {A : Type 0} → Owner → Physical → (Owner → A → Physical → Type 0) → Result A → Type 0
After own s P (ok a s') = (own' : Owner) × IsClosed own' s' × Grows own s own' s' × P own' a s'
After own s P (err code s') =
    (own' : Owner) × IsClosed own' s' × Grows own s own' s' × (code ≡ Code.no_enough_memory)
After own s P stuck = ⊥

pub After-later :
    {A : Type 0} (own own' : Owner) (s s' : Physical) (P : Owner → A → Physical → Type 0)
    (r : Result A)
    → IsClosed own s
    → Grows own s own' s'
    → After own' s' P r
    → After own s P r
After-later own own' s s' P (ok a t) v g (o, w, h, p) =
    (o, w, Grows-trans own own' o s s' t v g h, p)
After-later own own' s s' P (err c t) v g (o, w, h, p) =
    (o, w, Grows-trans own own' o s s' t v g h, p)
After-later own own' s s' P stuck v g never = never

pub After-map :
    {A : Type 0} (own : Owner) (s : Physical) (P Q : Owner → A → Physical → Type 0) (r : Result A)
    → After own s P r
    → ((own' : Owner) (a : A) (s' : Physical) → Grows own s own' s' → P own' a s' → Q own' a s')
    → After own s Q r
After-map own s P Q (ok a s') (o, v, g, p) f = (o, v, g, f o a s' g p)
After-map own s P Q (err c s') h f = h
After-map own s P Q stuck never f = never

pub After-bind :
    {A B : Type 0} (own : Owner) (s : Physical) (P : Owner → A → Physical → Type 0)
    (Q : Owner → B → Physical → Type 0) (m : M A) (f : A → M B)
    → IsClosed own s
    → After own s P (m s)
    → ((own' : Owner) (a : A) (s' : Physical)
        → IsClosed own' s'
        → Grows own s own' s'
        → P own' a s'
        → After own' s' Q (f a s'))
    → After own s Q ((m >>= f) s)
After-bind own s P Q m f v h next = go (m s) h
  where
    go :
        (r : Result _)
        → After own s P r
        → After own s Q (elim r [ ok a s' ↦ f a s' | err e s' ↦ err e s' | stuck ↦ stuck ])
    go (ok a s') (o, w, g, p) = After-later own o s s' Q (f a s') v g (next o a s' w g p)
    go (err e s') h' = h'
    go stuck never = never

same_place : (f t j i : ℕ) → (f == t && j == i) ≡ true → (f ≡ t) × (j ≡ i)
same_place f t j i h = (ground arith, ground arith)

-- A write to an entry keeps the tables when the new entry points where the old one did, if that was
-- present, and to a table or page in use, if it is present itself.
pub put_entry-Grows :
    (own : Owner) (s : Physical) (l table i e : ℕ)
    → IsClosed own s
    → own (suc l) table i ≡ true
    → (present (s.words table i) ≡ true
        → (present e ≡ true) × (pointer e ≡ pointer (s.words table i)))
    → (present e ≡ true
        → (k : ℕ) → own (suc k) table i ≡ true
        → (j : ℕ) → own k (pointer e) j ≡ true)
    → let s' = record s { words = λ f j. if f == table && j == i then e else s.words f j } in
      IsClosed own s' × Grows own s own s'
put_entry-Grows own s l table i e v o same inside = (
  record {
    valid = v.valid;
    allocated = v.allocated;
    child = λ k f j o' there.
        if_split (λ w. present w ≡ true → (n : ℕ) → own k (pointer w) n ≡ true)
          (f == table && j == i)
          (λ here p.
            let (ef, ej) = same_place f table j i here in
            inside p k (sym (ap₂ (own (suc k)) ef ej) ∙ o'))
          (λ there'. v.child k f j o') there;
  },
  record {
    bits = λ f b. b;
    owned = λ k f j b. refl;
    linked = λ k f j o' there.
        if_split (λ w. (present w ≡ true) × (pointer w ≡ pointer (s.words f j)))
          (f == table && j == i)
          (λ here.
            let (ef, ej) = same_place f table j i here in
            let w = ap₂ s.words ef ej in
            let (p, q) = same (sym (ap (λ n. present n) w) ∙ there) in (p, q ∙ ap pointer (sym w)))
          (λ there'. (there, refl));
    others = λ f j b none_mine.
        if_split (λ w. w ≡ s.words f j) (f == table && j == i)
          (λ here.
            let (ef, ej) = same_place f table j i here in
            let mine = ap₂ (own (suc l)) ef ej ∙ o in let not_mine = none_mine l in absurd (cc))
          (λ there. refl);
    apart = λ a. a;
  },
)

-- The words of a frame as entries of the level below the one of the entry `i` of `table`.
abbrev with_frame : Owner → (frame table i : ℕ) → Owner
with_frame own frame table i l f j = own l f j || (f == frame && own (suc l) table i)

with_frame-IsApart :
    (own : Owner) (frame table i : ℕ)
    → ((l j : ℕ) → own l frame j ≡ false)
    → IsApart own
    → IsApart (with_frame own frame table i)
with_frame-IsApart own frame table i none_there a l k f j j' o o' = elim (Bool-cases (f == frame)) [
  | inl here ↦
      let e : f ≡ frame = ground arith in
      let n = none_there l j in
      let n' = none_there k j' in
      let p = subst (λ (g : ℕ). with_frame own frame table i l g j ≡ true) e o in
      let p' = subst (λ (g : ℕ). with_frame own frame table i k g j' ≡ true) e o' in
      let q : own (suc l) table i ≡ true = ground arith in
      let q' : own (suc k) table i ≡ true = ground arith in
      omega (arith, a (suc l) (suc k) table i i q q')
  | inr other ↦
      let q : own l f j ≡ true = ground arith in
      let q' : own k f j' ≡ true = ground arith in a l k f j j' q q'
]

pub bind_ok :
    {A B : Type 0} (m : M A) (f : A → M B) (s s' : Physical) (a : A)
    → m s ≡ ok a s'
    → (m >>= f) s ≡ f a s'
bind_ok {A} {B} m f s s' a e =
    ap
      (λ (r : Result A). elim r as (λ x. Result B) [
        | ok b t ↦ f b t
        | err c t ↦ err c t
        | stuck ↦ stuck
      ])
      e

pub bind_err :
    {A B : Type 0} (m : M A) (f : A → M B) (s s' : Physical) (c : Code)
    → m s ≡ err c s'
    → (m >>= f) s ≡ err c s'
bind_err {A} {B} m f s s' c e =
    ap
      (λ (r : Result A). elim r as (λ x. Result B) [
        | ok b t ↦ f b t
        | err d t ↦ err d t
        | stuck ↦ stuck
      ])
      e

new_page_map-ok :
    (s : Physical) (frame : ℕ) (m : BitmapMemoryManager)
    → allocate s.manager 1 ≡ some (granted frame, m)
    → new_page_map s
      ≡ ok frame (record { words = λ f j. if f == frame then 0 else s.words f j; manager = m })
unfolding new_page_map allocate_frame fill_frame
new_page_map-ok s frame m e =
    let e' : allocate_frame s ≡ ok frame (record s { manager = m }) = rw (allocate_frame, e) refl in
    bind_ok allocate_frame (λ f. fill_frame f (λ j. 0) >> pure f) s (record s { manager = m }) frame
      e'

new_page_map-err :
    (s : Physical)
    → allocate s.manager 1
      ≡ some (record { value = null_frame; error = Code.no_enough_memory }, s.manager)
    → new_page_map s ≡ err Code.no_enough_memory s
unfolding new_page_map allocate_frame
new_page_map-err s e =
    let e' : allocate_frame s ≡ err Code.no_enough_memory s = rw (allocate_frame, e) refl in
    bind_err allocate_frame (λ f. fill_frame f (λ j. 0) >> pure f) s s Code.no_enough_memory e'

-- A frame that was not in use becomes a table or page for an entry.
fresh_frame :
    (own : Owner) (s : Physical) (frame table i : ℕ) (m : BitmapMemoryManager)
    → IsClosed own s
    → IsValid m
    → get_bit s.manager frame ≡ false
    → ((g : ℕ) → get_bit m g ≡ (if g == frame then true else get_bit s.manager g))
    → let s' : Physical = record {
      words = λ f j. if f == frame then 0 else s.words f j;
      manager = m;
    } in
      IsClosed (with_frame own frame table i) s' × Grows own s (with_frame own frame table i) s'
fresh_frame own s frame table i m v w unused marked = (
  record {
    valid = w;
    allocated = λ l f n o. ground (arith, marked f, v.allocated l f n);
    child = λ l f n o there j. elim (Bool-cases (f == frame)) [
      | inl here ↦ absurd (ground (arith, here))
      | inr other ↦
          let o' : own (suc l) f n ≡ true = ground arith in
          let there' : present (s.words f n) ≡ true = ground arith in
          ground (arith, v.child l f n o' there' j)
    ];
  },
  record {
    bits = λ f b. ground (arith, marked f);
    owned = λ l f n b. ground (arith, unused);
    linked = λ l f n o there.
        let other : (f == frame) ≡ false = ground (arith, v.allocated (suc l) f n o, unused) in
        rw other (there, refl);
    others = λ f n b o. ground (arith, unused);
    apart = with_frame-IsApart own frame table i (λ l j. elim (Bool-cases (own l frame j)) [
      | inl o ↦ absurd (ground (arith, v.allocated l frame j o, unused))
      | inr n ↦ n
    ]);
  },
)

-- The table that `NewPageMap` makes: an empty one in a frame that was free.
pub record NewTable (s : Physical) : Type 0 where
  pub frame : ℕ
  pub after : BitmapMemoryManager
  pub valid : IsValid after
  pub small : frame < 2 ^ 40
  pub unused : get_bit s.manager frame ≡ false
  pub marked : (g : ℕ) → get_bit after g ≡ (if g == frame then true else get_bit s.manager g)
  pub result :
      new_page_map s
      ≡ ok frame (record { words = λ f j. if f == frame then 0 else s.words f j; manager = after })

pub new_page_map-cases :
    (s : Physical) → IsValid s.manager → NewTable s ⊎ (new_page_map s ≡ err Code.no_enough_memory s)
new_page_map-cases s v = elim (allocate-FirstFit s.manager 1 v) [
  | inl (first_frame, from, run, first, e) ↦
      let is_marked = get_bit-granted 1 first_frame v e in
      inl (record {
        frame = first_frame;
        after = mark_allocated s.manager first_frame 1;
        valid = granted-IsValid 1 first_frame v e;
        small = omega (arith, run.inside, v.covered, v.small);
        unused = granted_unused 1 first_frame v e first_frame (ground arith);
        marked = λ g. ground (arith, is_marked g);
        result = new_page_map-ok s first_frame _ e;
      })
  | inr (never, e) ↦ inr (new_page_map-err s e)
]

-- `NewPageMap` gives a frame that was free, as an empty table for an entry, or reports that there is none.
pub new_page_map-After :
    (own : Owner) (s : Physical) (table i : ℕ)
    → IsClosed own s
    → After own s
        (λ own' frame s'.
          (frame < 2 ^ 40)
          × ((k j : ℕ) → own (suc k) table i ≡ true → own' k frame j ≡ true)
          × ((f i : ℕ) → get_bit s.manager f ≡ true → s'.words f i ≡ s.words f i))
        (new_page_map s)
new_page_map-After own s table i v =
    let P = λ (own' : Owner) (frame : ℕ) (s' : Physical).
      (frame < 2 ^ 40)
      × ((k j : ℕ) → own (suc k) table i ≡ true → own' k frame j ≡ true)
      × ((f i : ℕ) → get_bit s.manager f ≡ true → s'.words f i ≡ s.words f i) in
    elim (new_page_map-cases s v.valid) [
      | inl t ↦
          let frame = t.frame in
          let (closed, grows) =
            fresh_frame own s frame table i t.after v t.valid t.unused t.marked in
          let no_other = t.unused in
          subst (After own s P) (sym t.result) (
            with_frame own frame table i,
            closed,
            grows,
            (t.small, (λ k j o. ground arith), (λ f i b. ground (arith, no_other))),
          )
      | inr e ↦ subst (After own s P) (sym e) (own, v, Grows-refl own s, refl)
    ]
