-- ===== src/Elf/Range.antt =====
-- What the first loop of CopyLoadSegments computes: a range around all segments.
use mikan_os.Prelude.{
  if_split, subst, sym, ℕ, ◌≤◌, ◌≡◌, refl, min, max, List, [], ◌∷◌, Bool-cases, inl, inr, ◌==◌,
  if◌then◌else◌, arith,
}
use mikan_os.Elf.{Phdr, pt_load, segment_end, load_range}

-- What holds of every segment that is loaded.
abbrev pub Each : (Phdr → Type 0) → List Phdr → Type 0
Each P [] = Unit
Each P (p ∷ ps) = (p.p_type ≡ pt_load → P p) × Each P ps

pub Each-map :
    (P Q : Phdr → Type 0) (ps : List Phdr) → ((p : Phdr) → P p → Q p) → Each P ps → Each Q ps
Each-map P Q [] f h = tt
Each-map P Q (p ∷ ps) f (h, hs) = (λ e. f p (h e), Each-map P Q ps f hs)

load_range_step :
    (p : Phdr) (ps : List Phdr) (low high : ℕ)
    → load_range (p ∷ ps) low high ≡ (
        if p.p_type == pt_load
        then load_range ps (min low p.p_vaddr) (max high (segment_end p))
        else load_range ps low high)
unfolding load_range
load_range_step p ps low high = elim (Bool-cases (p.p_type == pt_load)) [
  | inl load ↦ rw (load_range, load) refl
  | inr skip ↦ rw (load_range, skip) refl
]

-- The range has every segment.
abbrev pub IsAround : List Phdr → (low high : ℕ) → ℕ × ℕ → Type 0
IsAround ps low high r =
    (r.0 ≤ low) × (high ≤ r.1) × Each (λ p. (r.0 ≤ p.p_vaddr) × (segment_end p ≤ r.1)) ps

pub load_range-IsAround :
    (ps : List Phdr) (low high : ℕ) → IsAround ps low high (load_range ps low high)
unfolding load_range
load_range-IsAround [] low high = (omega arith, omega arith, tt)
load_range-IsAround (p ∷ ps) low high =
    subst (IsAround (p ∷ ps) low high) (sym (load_range_step p ps low high)) (
      if_split (IsAround (p ∷ ps) low high) (p.p_type == pt_load)
        (λ load.
          let (a, b, all) = load_range-IsAround ps (min low p.p_vaddr) (max high (segment_end p)) in
          (omega (arith, a), omega (arith, b), ((λ e. (omega (arith, a), omega (arith, b))), all)))
        (λ skip.
          let (a, b, all) = load_range-IsAround ps low high in
          (a, b, ((λ e. absurd (ground (arith, skip, e))), all))))

-- It starts and ends where a segment may.
pub load_range-bounds :
    (ps : List Phdr) (low high least most : ℕ)
    → least ≤ low
    → high ≤ most
    → Each (λ p. (least ≤ p.p_vaddr) × (segment_end p ≤ most)) ps
    → let r = load_range ps low high in (least ≤ r.0) × (r.1 ≤ most)
unfolding load_range
load_range-bounds [] low high least most a b all = (a, b)
load_range-bounds (p ∷ ps) low high least most a b (one, all) =
    elim (Bool-cases (p.p_type == pt_load)) [
      | inl load ↦
          let (c, d) = one (ground (arith, load)) in
          rw (load_range, load)
            (load_range-bounds ps (min low p.p_vaddr) (max high (segment_end p)) least most
              (omega (arith, a, c)) (omega (arith, b, d)) all)
      | inr skip ↦ rw (load_range, skip) (load_range-bounds ps low high least most a b all)
    ]
