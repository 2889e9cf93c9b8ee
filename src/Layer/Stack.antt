-- ===== src/Layer/Stack.antt =====
-- UpDown and Hide against the order of the layers.
use mikan_os.Prelude.{
  ℕ, zero, suc, ◌<◌, ◌≡◌, ◌≢◌, refl, ◌∙◌, ap, List, [], ◌∷◌, Option, none, some, ltb, if◌then◌else◌,
  length, min, arith, Option-cases, inl, inr,
}
use mikan_os.Prelude.Int.{ℤ}
use mikan_os.Layer.{
  Layer, LayerManager, find_layer, erase_id, insert_at, height_of, get_height, raise, up_down, hide,
}

pub insert_at-height :
    (k id : ℕ) (xs : List ℕ)
    → height_of id xs ≡ none
    → height_of id (insert_at k id xs) ≡ some (min k (length xs))
unfolding height_of insert_at
insert_at-height zero id xs h = ground arith
insert_at-height (suc k) id [] h = ground arith
insert_at-height (suc k) id (x ∷ xs) h = ground (arith, insert_at-height k id xs)

pub insert_at-erase :
    (k id : ℕ) (xs : List ℕ) → height_of id xs ≡ none → erase_id id (insert_at k id xs) ≡ xs
unfolding height_of insert_at erase_id
insert_at-erase zero id xs h = ground arith
insert_at-erase (suc k) id [] h = ground arith
insert_at-erase (suc k) id (x ∷ xs) h = ground (arith, insert_at-erase k id xs)

pub erase-none : (id : ℕ) (xs : List ℕ) → height_of id xs ≡ none → erase_id id xs ≡ xs
unfolding height_of erase_id
erase-none id [] h = refl
erase-none id (x ∷ xs) h = ground (arith, erase-none id xs)

length-erase :
    (id h : ℕ) (xs : List ℕ) → height_of id xs ≡ some h → suc (length (erase_id id xs)) ≡ length xs
unfolding height_of erase_id
length-erase id h [] e = absurd (ground arith)
length-erase id zero (x ∷ xs) e = ground (arith, length-erase id zero xs)
length-erase id (suc h) (x ∷ xs) e = ground (arith, length-erase id h xs)

pub height_of-lt : (id h : ℕ) (xs : List ℕ) → height_of id xs ≡ some h → h < length xs
unfolding height_of
height_of-lt id h [] e = absurd (ground arith)
height_of-lt id zero (x ∷ xs) e = omega arith
height_of-lt id (suc h) (x ∷ xs) e = ground (arith, height_of-lt id h xs)

-- Another layer's height after an insertion.
pub insert_at-other :
    (k id j : ℕ) (xs : List ℕ)
    → j ≢ id
    → height_of j (insert_at k id xs)
      ≡ elim (height_of j xs) [ none ↦ none | some h ↦ some (if ltb h k then h else suc h) ]
unfolding height_of insert_at
insert_at-other zero id j xs h = ground (arith, height_of j xs)
insert_at-other (suc k) id j [] h = ground arith
insert_at-other (suc k) id j (x ∷ xs) h = ground (arith, insert_at-other k id j xs)

-- The layer stands once at most in the stack.
abbrev pub IsSingle : ℕ → List ℕ → Type 0
IsSingle id stack = height_of id (erase_id id stack) ≡ none

pub raise_lem :
    (id h : ℕ) (stack : List ℕ)
    → IsSingle id stack
    → raise id h stack ≡ insert_at (min h (length (erase_id id stack))) id (erase_id id stack)
unfolding raise
raise_lem id h stack single = elim (Option-cases (height_of id stack)) [
  | inl e ↦
      rw (raise, e, erase-none id stack e) (ap (λ (k : ℕ). insert_at k id stack) (ground arith))
  | inr (old, e) ↦
      rw (raise, e)
        (ap (λ (k : ℕ). insert_at k id (erase_id id stack))
          (ground (arith, length-erase id old stack)))
]

pub up_down-known :
    (m : LayerManager) (id h : ℕ) (l : Layer)
    → find_layer id m.layers ≡ some l
    → up_down m id (ℤ.pos h) ≡ record m { layer_stack = raise id h m.layer_stack }
unfolding up_down
up_down-known m id h l found = rw (up_down, found) refl

hide-known :
    (m : LayerManager) (id : ℕ) (l : Layer)
    → find_layer id m.layers ≡ some l
    → hide m id ≡ record m { layer_stack = erase_id id m.layer_stack }
unfolding hide
hide-known m id l found = rw (hide, found) refl

abbrev pub height_ℤ : Option ℕ → ℤ
height_ℤ o = elim o [ none ↦ ℤ.negsuc 0 | some h ↦ ℤ.pos h ]

-- For a layer of the manager that stands once at most in the stack, `UpDown` to a height that is not
-- negative puts it at that height, or on top of the others where that is lower, and leaves the order of
-- the others; and `Hide` after it takes the layer out, with the order of the others as it was.
pub up_down-hide :
    (m : LayerManager) (id h : ℕ) (l : Layer)
    → find_layer id m.layers ≡ some l
    → IsSingle id m.layer_stack
    → (get_height (up_down m id (ℤ.pos h)) id ≡ ℤ.pos (min h (length (erase_id id m.layer_stack))))
      × (erase_id id (up_down m id (ℤ.pos h)).layer_stack ≡ erase_id id m.layer_stack)
      × ((hide (up_down m id (ℤ.pos h)) id).layer_stack ≡ erase_id id m.layer_stack)
      × (get_height (hide (up_down m id (ℤ.pos h)) id) id ≡ ℤ.negsuc 0)
up_down-hide m id h l found single =
    let others = erase_id id m.layer_stack in
    let k = min h (length others) in
    let within : min k (length others) ≡ k = omega arith in
    let m' = record m { layer_stack = insert_at k id others } in
    let up : up_down m id (ℤ.pos h) ≡ m' =
      up_down-known m id h l found
      ∙ ap (λ (s : List ℕ). record m { layer_stack = s }) (raise_lem id h m.layer_stack single) in
    rw (up, hide-known m' id l found, insert_at-erase k id others single)
      (
        ap (height_ℤ) (insert_at-height k id others single ∙ ap some within),
        refl,
        refl,
        ap (height_ℤ) single,
      )
