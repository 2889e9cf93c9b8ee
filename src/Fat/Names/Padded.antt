-- ===== src/Fat/Names/Padded.antt =====
-- Names padded with spaces, and what ReadName makes of them.
use mikan_os.Prelude.{
  ℕ, zero, suc, ◌-◌, ◌≤◌, ◌≡◌, ◌≢◌, refl, ap, ap₂, ◌∙◌, List, [], ◌∷◌, ◌++◌, take, drop, length,
  replicate, length-replicate, length-append, arith, ==_no,
}
use mikan_os.Fat.Names.{c_string, strip, read_name, format_name, padded}

-- Characters of a name: no NUL, no space and no dot.
abbrev pub IsPlain : List ℕ → Type 0
IsPlain [] = Unit
IsPlain (c ∷ cs) = ((c ≢ 0) × (c ≢ 32) × (c ≢ 46)) × IsPlain cs

-- A base and an extension as one name: the dot is there if the extension is not empty.
unfoldable pub joined : List ℕ → List ℕ → List ℕ
joined base [] = base
joined base (c ∷ cs) = base ++ 46 ∷ c ∷ cs

-- What a directory entry has of them.
abbrev pub packed : List ℕ → List ℕ → List ℕ
packed base ext = padded 8 base ++ padded 3 ext

pub take_all : (n : ℕ) (xs : List ℕ) → length xs ≤ n → take n xs ≡ xs
take_all zero [] h = refl
take_all zero (x ∷ xs) h = absurd (omega arith)
take_all (suc n) [] h = refl
take_all (suc n) (x ∷ xs) h = ap (λ (r : List ℕ). x ∷ r) (take_all n xs (omega arith))

take-append : (n : ℕ) (xs ys : List ℕ) → length xs ≡ n → take n (xs ++ ys) ≡ xs
take-append zero [] ys h = refl
take-append zero (x ∷ xs) ys h = absurd (omega arith)
take-append (suc n) [] ys h = absurd (omega arith)
take-append (suc n) (x ∷ xs) ys h = ap (λ (r : List ℕ). x ∷ r) (take-append n xs ys (omega arith))

drop-append : (n : ℕ) (xs ys : List ℕ) → length xs ≡ n → drop n (xs ++ ys) ≡ ys
drop-append zero [] ys h = refl
drop-append zero (x ∷ xs) ys h = absurd (omega arith)
drop-append (suc n) [] ys h = absurd (omega arith)
drop-append (suc n) (x ∷ xs) ys h = drop-append n xs ys (omega arith)

pub length-padded : (n : ℕ) (xs : List ℕ) → length xs ≤ n → length (padded n xs) ≡ n
length-padded n xs h =
    let space : ℕ = 32 in
    omega (
      arith,
      length-append xs (replicate (n - length xs) space),
      length-replicate (n - length xs) space,
    )

strip-replicate : (n : ℕ) → strip (replicate n 32) ≡ []
unfolding strip
strip-replicate zero = refl
strip-replicate (suc n) = rw (strip, strip-replicate n) refl

strip-padded : (n : ℕ) (xs : List ℕ) → IsPlain xs → strip (xs ++ replicate n 32) ≡ xs
unfolding strip
strip-padded n [] p = strip-replicate n
strip-padded n (x ∷ []) ((z, s, d), p) = rw (strip, strip-replicate n, ==_no x 32 s) refl
strip-padded n (x ∷ y ∷ ys) (q, p) = rw (strip, strip-padded n (y ∷ ys) p) refl

c_string-IsPlain : (xs : List ℕ) → IsPlain xs → c_string xs ≡ xs
unfolding c_string
c_string-IsPlain [] p = refl
c_string-IsPlain (x ∷ xs) ((z, s, d), p) = rw (c_string, ==_no x 0 z, c_string-IsPlain xs p) refl

-- The parts of a padded name are read back.
pub read_name-packed :
    (base ext : List ℕ)
    → IsPlain base
    → IsPlain ext
    → length base ≤ 8
    → length ext ≤ 3
    → read_name (packed base ext) ≡ (base, ext)
unfolding read_name
read_name-packed base ext p q b e =
    let first : take 8 (packed base ext) ≡ padded 8 base =
      take-append 8 (padded 8 base) (padded 3 ext) (length-padded 8 base b) in
    let last : drop 8 (packed base ext) ≡ padded 3 ext =
      drop-append 8 (padded 8 base) (padded 3 ext) (length-padded 8 base b) in
    let last' : take 3 (padded 3 ext) ≡ padded 3 ext =
      take_all 3 (padded 3 ext) (omega (arith, length-padded 3 ext e)) in
    let base' = strip-padded (8 - length base) base p in
    let ext' = strip-padded (3 - length ext) ext q in
    ap₂ (λ (x y : List ℕ). (x, y))
      (ap (λ (x : List ℕ). c_string (strip x)) first ∙ ap c_string base' ∙ c_string-IsPlain base p)
      (ap (λ (x : List ℕ). c_string (strip (take 3 x))) last
        ∙ ap (λ (x : List ℕ). c_string (strip x)) last'
        ∙ ap c_string ext'
        ∙ c_string-IsPlain ext q)

pub format_name-packed :
    (base ext : List ℕ)
    → IsPlain base
    → IsPlain ext
    → length base ≤ 8
    → length ext ≤ 3
    → format_name (packed base ext) ≡ joined base ext
unfolding format_name joined
format_name-packed base ext p q b e =
    let format : List ℕ × List ℕ → List ℕ =
      λ r. elim r.1 as (λ x. List ℕ) [ [] ↦ r.0 | c ∷ cs ↦ r.0 ++ 46 ∷ c ∷ cs ] in
    let both : (xs : List ℕ) → format (base, xs) ≡ joined base xs =
      λ xs. elim xs [ [] ↦ refl | c ∷ cs ↦ refl ] in
    ap format (read_name-packed base ext p q b e) ∙ both ext
