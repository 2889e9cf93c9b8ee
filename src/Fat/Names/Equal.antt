-- ===== src/Fat/Names/Equal.antt =====
-- SetFileName and NameIsEqual pack a name alike.
use mikan_os.Prelude.{
  ℕ, zero, suc, ◌+◌, ◌-◌, ◌≤◌, ◌<◌, ◌≡◌, ◌≢◌, ◌↔◌, refl, sym, ap, ap₂, ◌∙◌, List, [], ◌∷◌, ◌++◌,
  map, true, none, some, length, replicate, set, length-append, length-map, arith, ==_no, subst,
}
use mathlib.Core.List.{append_assoc, append-nil}
use mikan_os.Fat.Names.{
  last_dot, read_name, set_file_name, fill_name83, same_bytes, name_is_equal, format_name, padded,
}
use mikan_os.Fat.Names.Padded.{
  IsPlain, joined, packed, take_all, length-padded, read_name-packed, format_name-packed,
}

last_dot-none : (xs : List ℕ) → IsPlain xs → last_dot xs ≡ none
unfolding last_dot
last_dot-none [] p = refl
last_dot-none (x ∷ xs) ((z, s, d), p) = rw (last_dot, last_dot-none xs p, ==_no x 46 d) refl

last_dot-joined : (xs ys : List ℕ) → IsPlain ys → last_dot (xs ++ 46 ∷ ys) ≡ some (xs, ys)
unfolding last_dot
last_dot-joined [] ys q = rw (last_dot, last_dot-none ys q) refl
last_dot-joined (x ∷ xs) ys q = rw (last_dot, last_dot-joined xs ys q) refl

replicate_add : (m n : ℕ) → replicate {A = ℕ} (m + n) 32 ≡ replicate m 32 ++ replicate n 32
replicate_add zero n = let e : 0 + n ≡ n = omega arith in ap (λ (k : ℕ). replicate k 32) e
replicate_add (suc m) n =
    let e : suc m + n ≡ suc (m + n) = omega arith in
    ap (λ (k : ℕ). replicate k 32) e ∙ ap (λ (r : List ℕ). 32 ∷ r) (replicate_add m n)

-- A base alone, padded to the whole name.
padded-packed : (base : List ℕ) → length base ≤ 8 → padded 11 base ≡ packed base []
padded-packed base h =
    let e : 11 - length base ≡ (8 - length base) + 3 = omega arith in
    ap (λ (k : ℕ). base ++ replicate k 32) e
    ∙ ap (λ (r : List ℕ). base ++ r) (replicate_add (8 - length base) 3)
    ∙ sym (append_assoc base (replicate (8 - length base) 32) (replicate 3 32))

-- What SetFileName writes.
pub set_file_name-packed :
    (toupper : ℕ → ℕ) (base ext : List ℕ)
    → IsPlain base
    → IsPlain ext
    → length base ≤ 8
    → length ext ≤ 3
    → set_file_name toupper (joined base ext) ≡ packed (map toupper base) (map toupper ext)
unfolding set_file_name joined
set_file_name-packed toupper base [] p q b e =
    rw (set_file_name, last_dot-none base p, take_all 8 base b)
      (padded-packed (map toupper base) (omega (arith, length-map base toupper)))
set_file_name-packed toupper base (c ∷ cs) p q b e =
    rw (set_file_name, last_dot-joined base (c ∷ cs) q, take_all 8 base b)
      (ap (λ (x : List ℕ). padded 8 (map toupper base) ++ padded 3 (map toupper x))
        (take_all 3 (c ∷ cs) e))

fill_next :
    (toupper : ℕ → ℕ) (name83 cs : List ℕ) (i c : ℕ)
    → i < 11
    → c ≢ 46
    → fill_name83 toupper name83 i (c ∷ cs)
      ≡ fill_name83 toupper (set name83 i (toupper c)) (i + 1) cs
unfolding fill_name83
fill_next toupper name83 cs i c h d = ground arith

fill_dot :
    (toupper : ℕ → ℕ) (name83 cs : List ℕ) (i : ℕ)
    → i < 11
    → fill_name83 toupper name83 i (46 ∷ cs) ≡ fill_name83 toupper name83 8 cs
unfolding fill_name83
fill_dot toupper name83 cs i h = ground arith

set-append :
    (done rest : List ℕ) (x v : ℕ)
    → set (done ++ x ∷ rest) (length done) v ≡ (done ++ v ∷ []) ++ rest
set-append [] rest x v = refl
set-append (d ∷ ds) rest x v = ap (λ (r : List ℕ). d ∷ r) (set-append ds rest x v)

-- The loop of NameIsEqual over characters that are no dots.
fill_run :
    (toupper : ℕ → ℕ) (done cs tail : List ℕ) (n : ℕ)
    → IsPlain cs
    → length cs ≤ n
    → length done + n ≤ 11
    → fill_name83 toupper (done ++ replicate n 32) (length done) (cs ++ tail)
      ≡ fill_name83 toupper
          ((done ++ map toupper cs) ++ replicate (n - length cs) 32)
          (length done + length cs)
          tail
fill_run toupper done [] tail n p h k =
    let none_off : n ≡ n - 0 = omega arith in
    let none_on : length done ≡ length done + 0 = omega arith in
    ap₂ (λ (x : List ℕ) (i : ℕ). fill_name83 toupper x i tail)
      (ap₂ (λ (x : List ℕ) (m : ℕ). x ++ replicate m 32) (sym (append-nil done)) none_off) none_on
fill_run toupper done (c ∷ cs) tail zero p h k = absurd (omega arith)
fill_run toupper done (c ∷ cs) tail (suc n) ((z, s, d), p) h k =
    let v = toupper c in
    let longer = length-append done (v ∷ []) in
    let here : length done + 1 ≡ length (done ++ v ∷ []) = omega (arith, longer) in
    let there : length (done ++ v ∷ []) + length cs ≡ length done + suc (length cs) =
      omega (arith, longer) in
    let left : n - length cs ≡ suc n - suc (length cs) = omega arith in
    fill_next toupper (done ++ 32 ∷ replicate n 32) (cs ++ tail) (length done) c (omega (arith, k))
      d
    ∙ ap₂ (λ (x : List ℕ) (i : ℕ). fill_name83 toupper x i (cs ++ tail))
        (set-append done (replicate n 32) 32 v) here
    ∙ fill_run toupper (done ++ v ∷ []) cs tail n p (omega (arith, h)) (omega (arith, k, longer))
    ∙ ap₂ (λ (x : List ℕ) (i : ℕ). fill_name83 toupper x i tail)
        (ap₂ (λ (x : List ℕ) (m : ℕ). x ++ replicate m 32)
          (append_assoc done (v ∷ []) (map toupper cs)) left)
        there

fill_last :
    (toupper : ℕ → ℕ) (done cs : List ℕ) (n : ℕ)
    → IsPlain cs
    → length cs ≤ n
    → length done + n ≤ 11
    → fill_name83 toupper (done ++ replicate n 32) (length done) cs
      ≡ (done ++ map toupper cs) ++ replicate (n - length cs) 32
unfolding fill_name83
fill_last toupper done cs n p h k =
    ap (λ (x : List ℕ). fill_name83 toupper (done ++ replicate n 32) (length done) x)
      (sym (append-nil cs))
    ∙ fill_run toupper done cs [] n p h k

-- What NameIsEqual compares with.
pub fill_name83-packed :
    (toupper : ℕ → ℕ) (base ext : List ℕ)
    → IsPlain base
    → IsPlain ext
    → length base ≤ 8
    → length ext ≤ 3
    → fill_name83 toupper (replicate 11 32) 0 (joined base ext)
      ≡ packed (map toupper base) (map toupper ext)
unfolding joined
fill_name83-packed toupper base [] p q b e =
    let up = map toupper base in
    let same : 11 - length base ≡ 11 - length up = omega (arith, length-map base toupper) in
    fill_last toupper [] base 11 p (omega (arith, b)) (omega arith)
    ∙ ap (λ (k : ℕ). up ++ replicate k 32) same
    ∙ padded-packed up (omega (arith, length-map base toupper))
fill_name83-packed toupper base (c ∷ cs) p q b e =
    let up = map toupper base in
    let ext = c ∷ cs in
    let done = padded 8 up in
    let lb = length-map base toupper in
    let same : 11 - length base ≡ 11 - length up = omega (arith, lb) in
    let eight = length-padded 8 up (omega (arith, lb, b)) in
    let left : 3 - length ext ≡ 3 - length (map toupper ext) =
      omega (arith, length-map ext toupper) in
    fill_run toupper [] base (46 ∷ ext) 11 p (omega (arith, b)) (omega arith)
    ∙ fill_dot toupper (up ++ replicate (11 - length base) 32) ext (0 + length base)
        (omega (arith, b))
    ∙ ap (λ (k : ℕ). fill_name83 toupper (up ++ replicate k 32) 8 ext) same
    ∙ ap₂ (λ (x : List ℕ) (i : ℕ). fill_name83 toupper x i ext)
        (padded-packed up (omega (arith, lb, b))) (sym eight)
    ∙ fill_last toupper done ext 3 q e (omega (arith, eight))
    ∙ ap (λ (k : ℕ). (done ++ map toupper ext) ++ replicate k 32) left
    ∙ append_assoc done (map toupper ext) (replicate (3 - length (map toupper ext)) 32)

same_bytes_iff : (xs ys : List ℕ) → (same_bytes xs ys ≡ true) ↔ (xs ≡ ys)
unfolding same_bytes
same_bytes_iff xs ys = (to xs ys, λ e. subst (λ (y : List ℕ). same_bytes xs y ≡ true) e (self xs))
  where
    to : (xs ys : List ℕ) → same_bytes xs ys ≡ true → xs ≡ ys
    to [] [] h = refl
    to [] (y ∷ ys) h = absurd (ground arith)
    to (x ∷ xs) [] h = absurd (ground arith)
    to (x ∷ xs) (y ∷ ys) h =
        let e : x ≡ y = ground arith in
        ap₂ (λ (a : ℕ) (r : List ℕ). a ∷ r) e (to xs ys (ground arith))

    self : (xs : List ℕ) → same_bytes xs xs ≡ true
    self [] = refl
    self (x ∷ xs) = ground (arith, self xs)

map-IsPlain :
    (toupper : ℕ → ℕ) (xs : List ℕ)
    → ((c : ℕ) → IsPlain (c ∷ []) → IsPlain (toupper c ∷ []))
    → IsPlain xs
    → IsPlain (map toupper xs)
map-IsPlain toupper [] keeps p = tt
map-IsPlain toupper (c ∷ cs) keeps (q, p) = ((keeps c (q, tt)).0, map-IsPlain toupper cs keeps p)

-- For names of at most 8 characters and an extension of at most 3, none of them a NUL, a space or a dot,
-- where `toupper` makes none of these: the name that SetFileName gives an entry is printed by FormatName
-- in upper case, and NameIsEqual finds it equal to such a name exactly if base and extension agree in
-- upper case.
pub set_file_name-equal :
    (toupper : ℕ → ℕ) (base ext base' ext' : List ℕ)
    → ((c : ℕ) → IsPlain (c ∷ []) → IsPlain (toupper c ∷ []))
    → IsPlain base
    → IsPlain ext
    → IsPlain base'
    → IsPlain ext'
    → length base ≤ 8
    → length ext ≤ 3
    → length base' ≤ 8
    → length ext' ≤ 3
    → let name = set_file_name toupper (joined base ext) in
      (format_name name ≡ joined (map toupper base) (map toupper ext))
      × ((name_is_equal toupper name (joined base' ext') ≡ true)
          ↔ ((map toupper base ≡ map toupper base') × (map toupper ext ≡ map toupper ext')))
unfolding name_is_equal
set_file_name-equal toupper base ext base' ext' keeps p q p' q' b e b' e' =
    let up = map-IsPlain toupper in
    let stored = set_file_name-packed toupper base ext p q b e in
    let wanted = fill_name83-packed toupper base' ext' p' q' b' e' in
    let reads =
      read_name-packed (map toupper base) (map toupper ext) (up base keeps p) (up ext keeps q)
        (omega (arith, length-map base toupper)) (omega (arith, length-map ext toupper)) in
    let reads' =
      read_name-packed (map toupper base') (map toupper ext') (up base' keeps p') (up ext' keeps q')
        (omega (arith, length-map base' toupper)) (omega (arith, length-map ext' toupper)) in
    let iff =
      same_bytes_iff (set_file_name toupper (joined base ext))
        (fill_name83 toupper (replicate 11 32) 0 (joined base' ext')) in
    (
      ap format_name stored
          ∙ format_name-packed (map toupper base) (map toupper ext) (up base keeps p)
              (up ext keeps q) (omega (arith, length-map base toupper))
              (omega (arith, length-map ext toupper)),
      (
        λ h.
            let same = sym stored ∙ iff.0 h ∙ wanted in
            let parts = sym reads ∙ ap read_name same ∙ reads' in
            (ap (λ (r : List ℕ × List ℕ). r.0) parts, ap (λ (r : List ℕ × List ℕ). r.1) parts),
        λ (x, y). iff.1 (stored ∙ ap₂ (λ (m n : List ℕ). packed m n) x y ∙ sym wanted),
      ),
    )
