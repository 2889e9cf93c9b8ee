-- ===== src/Paging/Owned.antt =====
-- The tables in use: which words of memory are entries of which level, and how a call may change them.
use mikan_os.Prelude.{
  ℕ, zero, suc, ◌/◌, ◌%◌, ◌≡◌, refl, ◌∙◌, ap, Bool, true, false, if◌then◌else◌, arith, Bool-cases,
  inl, inr,
}
use mikan_os.Memory.{get_bit}
use mikan_os.Memory.Bitmap.{IsValid}
use mikan_os.Paging.{Physical, present, pointer}
use mikan_os.Paging.Address.{span}

-- `own l f i`: the word `i` of the frame `f` is an entry of a table of level `l`. Level 0 is a page.
abbrev pub Owner : Type 0
Owner = ℕ → ℕ → ℕ → Bool

-- No frame is a table of one level and a table or page of another.
abbrev pub IsApart : Owner → Type 0
IsApart own = (l k f i j : ℕ) → own l f i ≡ true → own k f j ≡ true → l ≡ k

-- Tables and pages lie in allocated frames, and the entries of a table point to those of the next level.
pub record IsClosed (own : Owner) (s : Physical) : Type 0 where
  pub valid : IsValid s.manager
  pub allocated : (l f i : ℕ) → own l f i ≡ true → get_bit s.manager f ≡ true
  pub child :
      (l f i : ℕ)
      → own (suc l) f i ≡ true
      → present (s.words f i) ≡ true
      → (j : ℕ) → own l (pointer (s.words f i)) j ≡ true

-- Frames stay allocated, entries that are present stay present and point where they did, and the words
-- that are no entries, of frames that were allocated, stay as they are. Tables that were apart stay so.
pub record Grows (own : Owner) (s : Physical) (own' : Owner) (s' : Physical) : Type 0 where
  pub bits : (f : ℕ) → get_bit s.manager f ≡ true → get_bit s'.manager f ≡ true
  pub owned : (l f i : ℕ) → get_bit s.manager f ≡ true → own' l f i ≡ own l f i
  pub linked :
      (l f i : ℕ)
      → own (suc l) f i ≡ true
      → present (s.words f i) ≡ true
      → (present (s'.words f i) ≡ true) × (pointer (s'.words f i) ≡ pointer (s.words f i))
  pub others :
      (f i : ℕ)
      → get_bit s.manager f ≡ true
      → ((l : ℕ) → own (suc l) f i ≡ false)
      → s'.words f i ≡ s.words f i
  pub apart : IsApart own → IsApart own'

pub Grows-refl : (own : Owner) (s : Physical) → Grows own s own s
Grows-refl own s = record {
  bits = λ f b. b;
  owned = λ l f i b. refl;
  linked = λ l f i o p. (p, refl);
  others = λ f i b o. refl;
  apart = λ a. a;
}

pub Grows-trans :
    (own own' own'' : Owner) (s s' s'' : Physical)
    → IsClosed own s
    → Grows own s own' s'
    → Grows own' s' own'' s''
    → Grows own s own'' s''
Grows-trans own own' own'' s s' s'' v g h = record {
  bits = λ f b. h.bits f (g.bits f b);
  owned = λ l f i b. h.owned l f i (g.bits f b) ∙ g.owned l f i b;
  linked = λ l f i o p.
      let (p', e) = g.linked l f i o p in
      let o' = g.owned (suc l) f i (v.allocated (suc l) f i o) ∙ o in
      let (p'', e') = h.linked l f i o' p' in (p'', e' ∙ e);
  others =
      λ f i b o. h.others f i (g.bits f b) (λ l. g.owned (suc l) f i b ∙ o l) ∙ g.others f i b o;
  apart = λ a. h.apart (g.apart a);
}

-- What the processor finds for the page `p` of a table of a level: whether all entries are present.
unfoldable pub mapped : (ℕ → ℕ → ℕ) → (level table p : ℕ) → Bool
mapped words zero table p = true
mapped words (suc level) table p =
    let e = words table (p / span level) in
    if present e then mapped words level (pointer e) (p % span level) else false

pub mapped_entry :
    (words : ℕ → ℕ → ℕ) (level table p : ℕ)
    → mapped words (suc level) table p ≡ true
    → let e = words table (p / span level) in
      (present e ≡ true) × (mapped words level (pointer e) (p % span level) ≡ true)
unfolding mapped
mapped_entry words level table p h = elim (Bool-cases (present (words table (p / span level)))) [
  | inl there ↦ (there, ground arith)
  | inr none_there ↦ absurd (ground arith)
]

pub mapped_below :
    (words : ℕ → ℕ → ℕ) (level table p : ℕ)
    → let e = words table (p / span level) in
      present e ≡ true
      → mapped words level (pointer e) (p % span level) ≡ true
      → mapped words (suc level) table p ≡ true
unfolding mapped
mapped_below words level table p there below = ground arith

-- A page that is mapped stays so.
pub mapped-Grows :
    (own own' : Owner) (s s' : Physical) (level table p : ℕ)
    → IsClosed own s
    → Grows own s own' s'
    → own (suc level) table (p / span level) ≡ true
    → mapped s.words (suc level) table p ≡ true
    → mapped s'.words (suc level) table p ≡ true
unfolding mapped
mapped-Grows own own' s s' zero table p v g o h =
    let i = p / span 0 in
    let (there, below) = mapped_entry s.words 0 table p h in
    let (there', same) = g.linked 0 table i o there in mapped_below s'.words 0 table p there' refl
mapped-Grows own own' s s' (suc level) table p v g o h =
    let i = p / span (suc level) in
    let q = p % span (suc level) in
    let (there, below) = mapped_entry s.words (suc level) table p h in
    let (there', same) = g.linked (suc level) table i o there in
    let mine = v.child (suc level) table i o there (q / span level) in
    let kept = mapped-Grows own own' s s' level (pointer (s.words table i)) q v g mine below in
    mapped_below s'.words (suc level) table p there'
      (ap (λ (t : ℕ). mapped s'.words (suc level) t q) same ∙ kept)
