-- ===== src/Paging/Copy/Tree.antt =====
-- Trees of tables: the entry that an index leads to, and what keeps them.
use mikan_os.Prelude.{
  ℕ, zero, suc, ◌/◌, ◌%◌, ◌<◌, ◌≤◌, ◌≡◌, refl, ◌∙◌, ap, sym, true, false, ◌&&◌, ◌==◌, leb, ltb,
  if◌then◌else◌, arith, Bool-cases, inl, inr, subst, Option, none, some,
}
use native.Mathlib.Nat.{mod-lt}
use mikan_os.Memory.{get_bit}
use mikan_os.Memory.Bitmap.{IsValid}
use mikan_os.Paging.{Physical, present, pointer}
use mikan_os.Paging.Address.{span}
use mikan_os.Paging.Setup.Digits.{span_pos, next_page}

-- The entry of a page behind the entry `e`, for the page `q` of those that `level` levels of tables
-- below it have.
unfoldable pub leaf_of : (ℕ → ℕ → ℕ) → (level e q : ℕ) → Option ℕ
leaf_of words zero e q = if present e then some e else none
leaf_of words (suc level) e q =
    let below = leaf_of words level (words (pointer e) (q / span level)) (q % span level) in
    if present e then below else none

-- All frames of the tables behind the entry have the property.
abbrev pub Tree : (ℕ → Type 0) → (ℕ → ℕ → ℕ) → (level e : ℕ) → Type 0
Tree P words zero e = Unit
Tree P words (suc level) e =
    present e ≡ true
    → P (pointer e) × ((j : ℕ) → j < 512 → Tree P words level (words (pointer e) j))

-- The words of the frames of one property are kept, and the frames get another.
abbrev pub Moves : (P Q : ℕ → Type 0) → (words words' : ℕ → ℕ → ℕ) → Type 0
Moves P Q words words' = (f : ℕ) → P f → Q f × ((j : ℕ) → j < 512 → words' f j ≡ words f j)

pub Tree-map :
    (P Q : ℕ → Type 0) (words words' : ℕ → ℕ → ℕ) (level e : ℕ)
    → Moves P Q words words'
    → Tree P words level e
    → Tree Q words' level e
Tree-map P Q words words' zero e h t = tt
Tree-map P Q words words' (suc level) e h t = λ there.
    let (p, sub) = t there in
    let (q, same) = h (pointer e) p in
    (
      q,
      λ j lt.
          subst (λ (x : ℕ). Tree Q words' level x) (sym (same j lt))
            (Tree-map P Q words words' level (words (pointer e) j) h (sub j lt)),
    )

pub leaf_of-Tree :
    (P Q : ℕ → Type 0) (words words' : ℕ → ℕ → ℕ) (level e : ℕ)
    → Moves P Q words words'
    → Tree P words level e
    → (q : ℕ) → q < span level
    → leaf_of words' level e q ≡ leaf_of words level e q
unfolding leaf_of
leaf_of-Tree P Q words words' zero e h t q lt = refl
leaf_of-Tree P Q words words' (suc level) e h t q lt = elim (Bool-cases (present e)) [
  | inr absent ↦ rw absent refl
  | inl there ↦
      let i = q / span level in
      let r = q % span level in
      let (p, sub) = t there in
      let (p', same) = h (pointer e) p in
      let (low, first, end, exact) = next_page q (span level) (span_pos level) lt in
      rw there (
        ap (λ (x : ℕ). leaf_of words' level x r) (same i low)
        ∙ leaf_of-Tree P Q words words' level (words (pointer e) i) h (sub i low) r
            (mod-lt q (span_pos level)))
]

-- What a copy does to memory: frames stay allocated, and of those only the entries of `dest` from `lo`
-- on, below `hi`, change.
pub record Keeps (dest lo hi : ℕ) (s s' : Physical) : Type 0 where
  pub valid : IsValid s'.manager
  pub bits : (f : ℕ) → get_bit s.manager f ≡ true → get_bit s'.manager f ≡ true
  pub same :
      (f j : ℕ)
      → get_bit s.manager f ≡ true
      → (f == dest && leb lo j && ltb j hi) ≡ false
      → s'.words f j ≡ s.words f j

pub Keeps-refl : (dest lo hi : ℕ) (s : Physical) → IsValid s.manager → Keeps dest lo hi s s
Keeps-refl dest lo hi s v = record { valid = v; bits = λ f b. b; same = λ f j b n. refl }

pub Keeps-trans :
    (dest lo mid hi : ℕ) (s s' s'' : Physical)
    → lo ≤ mid
    → mid ≤ hi
    → Keeps dest lo mid s s'
    → Keeps dest mid hi s' s''
    → Keeps dest lo hi s s''
Keeps-trans dest lo mid hi s s' s'' a b g h = record {
  valid = h.valid;
  bits = λ f u. h.bits f (g.bits f u);
  same = λ f j u n. h.same f j (g.bits f u) (ground arith) ∙ g.same f j u (ground arith);
}
