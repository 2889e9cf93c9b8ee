-- ===== src/Layer/Topmost.antt =====
-- What `Draw(area)` shows: at each point the layer that `FindLayerByPosition` finds there.
use mikan_os.Prelude.{
  ℕ, ◌<◌, ◌≡◌, ◌≢◌, refl, sym, subst, ap, ◌∙◌, List, [], ◌∷◌, Bool, true, false, ◌&&◌, Option, none,
  some, ◌==◌, if◌then◌else◌, arith, Bool-cases, Option-cases, inl, inr, ==_no,
}
use mikan_os.Prelude.Int.{ℤ, ◌-ℤ◌, -ℤ_parts, eq_of_parts, leb_ℤ}
use mikan_os.Error.{Code}
use mikan_os.Graphics.{Rectangle}
use mikan_os.Graphics.Rectangles.{contains}
use mikan_os.Graphics.Buffer.{FrameBuffer, FrameBufferConfig}
use mikan_os.Graphics.Buffer.Screen.{IsConfig, point, pixel_byte}
use mikan_os.Graphics.Buffer.Pixels.{IsSupported, on_screen, copy-pixels}
use mikan_os.Layer.{
  Layer, LayerManager, find_layer, layer_draw_to, draw_layers, draw_area, at_position, find_last,
  find_layer_by_position, height_of,
}
use mikan_os.Layer.Painted.{
  IsDrawable, layer_byte, seen, covers, layer_draw_to-config, layer_draw_to-pixels,
}

-- Every layer of the list is drawable.
unfoldable pub AllDrawable : FrameBuffer → List Layer → Type 0
AllDrawable fb [] = Unit {0}
AllDrawable fb (l ∷ ls) = IsDrawable fb l × AllDrawable fb ls

find_layer-IsDrawable :
    (fb : FrameBuffer) (layers : List Layer) (id : ℕ) (l : Layer)
    → AllDrawable fb layers
    → find_layer id layers ≡ some l
    → IsDrawable fb l
unfolding find_layer AllDrawable
find_layer-IsDrawable fb [] id l all h = absurd (ground arith)
find_layer-IsDrawable fb (k ∷ ls) id l (first, others) h = elim (Bool-cases (k.id == id)) [
  | inl here ↦ let same : k ≡ l = ground arith in subst (IsDrawable fb) same first
  | inr there ↦ find_layer-IsDrawable fb ls id l others (ground arith)
]

-- The same for a frame buffer of the same configuration.
AllDrawable-config :
    (fb fb' : FrameBuffer) (layers : List Layer)
    → fb'.config ≡ fb.config
    → AllDrawable fb layers
    → AllDrawable fb' layers
unfolding AllDrawable IsDrawable
AllDrawable-config fb fb' [] e all = tt
AllDrawable-config fb fb' (l ∷ ls) e (first, others) = (
  λ w h. (
    (first w h).0,
    subst (λ c. IsSupported (record { config = c; memory = fb'.memory }) w.shadow_buffer) (sym e)
        (first w h).1,
  ),
  AllDrawable-config fb fb' ls e others,
)

height_of-tail :
    (e id : ℕ) (ids : List ℕ) → height_of e (id ∷ ids) ≡ none → (id ≢ e) × (height_of e ids ≡ none)
unfolding height_of
height_of-tail e id ids h = elim (Bool-cases (id == e)) [
  | inl same ↦ absurd (ground arith)
  | inr other ↦ elim (Option-cases (height_of e ids)) [
    | inl free ↦ (ground arith, free)
    | inr (k, found) ↦ absurd (ground arith)
  ]
]

-- One more layer on top of the others: `o` is the layer found above it.
add_layer :
    (layers : List Layer) (id : ℕ) (l : Layer) (area_has pr cov : Bool) (o : Option ℕ)
    (x y i old : ℕ)
    → find_layer id layers ≡ some l
    → pr ≡ cov
    → (if area_has
        then seen layers o x y i (if area_has && cov then layer_byte l x y i else old)
        else if area_has && cov
        then layer_byte l x y i
        else old)
      ≡ (if area_has
          then seen layers
              (elim o [ some z ↦ some z | none ↦ if pr then some id else none ])
              x
              y
              i
              old
          else old)
add_layer layers id l false pr cov o x y i old e h = refl
add_layer layers id l true pr cov (some z) x y i old e h = refl
add_layer layers id l true true true none x y i old e h = rw (seen, e) refl
add_layer layers id l true false false none x y i old e h = refl
add_layer layers id l true true false none x y i old e h = absurd (cc)
add_layer layers id l true false true none x y i old e h = absurd (cc)

-- A layer that is missing.
add_nothing :
    (layers : List Layer) (id : ℕ) (area_has pr : Bool) (o : Option ℕ) (x y i old : ℕ)
    → pr ≡ false
    → (if area_has then seen layers o x y i old else old) ≡ (
        if area_has
        then seen layers
            (elim o [ some z ↦ some z | none ↦ if pr then some id else none ])
            x
            y
            i
            old
        else old)
add_nothing layers id false pr o x y i old h = refl
add_nothing layers id true pr (some z) x y i old h = refl
add_nothing layers id true false none x y i old h = refl
add_nothing layers id true true none x y i old h = absurd (cc)

module _ (layers : List Layer) (area : Rectangle) (wide : leb_ℤ (ℤ.pos 0) area.size.x ≡ true)
    (exclude_id : ℕ) (x y i : ℕ) (small : i < 4) where
  abbrev pred : ℕ → Bool
  pred = at_position layers (point x y) exclude_id

  pred-some :
      (id : ℕ) (l : Layer)
      → find_layer id layers ≡ some l
      → id ≢ exclude_id
      → pred id ≡ covers l (point x y)
  unfolding at_position
  pred-some id l e h = rw (at_position, ==_no id exclude_id h, e) refl

  pred-none : (id : ℕ) → find_layer id layers ≡ none → pred id ≡ false
  unfolding at_position
  pred-none id e = elim (Bool-cases (id == exclude_id)) [
    | inl same ↦ rw (at_position, same) refl
    | inr other ↦ rw (at_position, other, e) refl
  ]

  -- The stack draws the topmost layer at the point, where the area has it.
  abbrev drawn_byte : List ℕ → FrameBuffer → ℕ
  drawn_byte ids back =
      if contains area (point x y)
      then seen layers (find_last pred ids) x y i (pixel_byte back x y i)
      else pixel_byte back x y i

  draw_layers-pixels :
      (ids : List ℕ) (back : FrameBuffer)
      → height_of exclude_id ids ≡ none
      → AllDrawable back layers
      → IsConfig back.config
      → x < back.config.horizontal_resolution
      → y < back.config.vertical_resolution
      → (pixel_byte (draw_layers layers ids area back) x y i ≡ drawn_byte ids back)
        × ((draw_layers layers ids area back).config ≡ back.config)
  unfolding draw_layers find_last height_of
  draw_layers-pixels [] back free all v in_x in_y = (ground arith, refl)
  draw_layers-pixels (id ∷ ids) back free all v in_x in_y =
      let (other, free') = height_of-tail exclude_id id ids free in
      elim (Option-cases (find_layer id layers)) [
        | inl e ↦
            let step =
              ap
                (λ o.
                  draw_layers layers ids area
                    (elim o [ none ↦ back | some l ↦ layer_draw_to l back area ]))
                e in
            let (rest, config) = draw_layers-pixels ids back free' all v in_x in_y in
            (
              ap (λ fb. pixel_byte fb x y i) step
                  ∙ rest
                  ∙ add_nothing layers id (contains area (point x y)) (pred id) (find_last pred ids)
                      x y i (pixel_byte back x y i) (pred-none id e),
              ap (λ fb. fb.config) step ∙ config,
            )
        | inr (l, e) ↦
            let step =
              ap
                (λ o.
                  draw_layers layers ids area
                    (elim o [ none ↦ back | some l ↦ layer_draw_to l back area ]))
                e in
            let drawable = find_layer-IsDrawable back layers id l all e in
            let back' = layer_draw_to l back area in
            let same = layer_draw_to-config l back area drawable v wide in
            let pixels = layer_draw_to-pixels l back area drawable v wide x y i in_x in_y small in
            let (rest, config) =
              draw_layers-pixels ids back' free' (AllDrawable-config back back' layers same all)
                (subst IsConfig (sym same) v)
                (subst (λ c. x < c.horizontal_resolution) (sym same) in_x)
                (subst (λ c. y < c.vertical_resolution) (sym same) in_y) in
            (
              ap (λ fb. pixel_byte fb x y i) step
                  ∙ rest
                  ∙ ap
                      (λ b.
                        if contains area (point x y)
                        then seen layers (find_last pred ids) x y i b
                        else b)
                      pixels
                  ∙ add_layer layers id l (contains area (point x y)) (pred id)
                      (covers l (point x y)) (find_last pred ids) x y i (pixel_byte back x y i) e
                      (pred-some id l e other),
              ap (λ fb. fb.config) step ∙ config ∙ same,
            )
      ]

-- The two frame buffers of the manager have the same size and format, and every layer can be drawn.
pub record IsComposed (m : LayerManager) : Type 0 where
  pub screen_config : IsConfig m.screen.config
  pub back_config : IsConfig m.back_buffer.config
  pub same_width :
      m.back_buffer.config.horizontal_resolution ≡ m.screen.config.horizontal_resolution
  pub same_height : m.back_buffer.config.vertical_resolution ≡ m.screen.config.vertical_resolution
  pub supported : IsSupported m.screen m.back_buffer
  pub drawable : AllDrawable m.back_buffer m.layers

ℤ_self : (a : ℤ) (x : ℕ) → ℤ.pos x -ℤ (a -ℤ a) ≡ ℤ.pos x
ℤ_self a x = omega (arith, -ℤ_parts, eq_of_parts)

if_inside : (a b c : ℕ) (h : Bool) → (if h then (if h then a else b) else c) ≡ (if h then a else c)
if_inside a b c true = refl
if_inside a b c false = refl

-- Draw(area), at a point of the area, leaves on the screen what the layer has that
-- FindLayerByPosition finds there without excluding one of the stack, and what the back buffer had
-- where it finds none; outside the area the screen is as it was. The layers' windows are opaque, the
-- two frame buffers have room in their memories and one size and format, and the area is not of a
-- negative width.
pub draw_area-topmost :
    (m : LayerManager) (area : Rectangle) (exclude_id x y i : ℕ)
    → IsComposed m
    → leb_ℤ (ℤ.pos 0) area.size.x ≡ true
    → height_of exclude_id m.layer_stack ≡ none
    → x < m.screen.config.horizontal_resolution
    → y < m.screen.config.vertical_resolution
    → i < 4
    → pixel_byte (draw_area m area).screen x y i ≡ (
        if contains area (point x y)
        then seen m.layers
            (find_layer_by_position m (point x y) exclude_id)
            x
            y
            i
            (pixel_byte m.back_buffer x y i)
        else pixel_byte m.screen x y i)
unfolding draw_area find_layer_by_position
draw_area-topmost m area exclude_id x y i v wide free in_x in_y small =
    let back = draw_layers m.layers m.layer_stack area m.back_buffer in
    let in_x' : x < m.back_buffer.config.horizontal_resolution =
      subst (λ n. x < n) (sym v.same_width) in_x in
    let in_y' : y < m.back_buffer.config.vertical_resolution =
      subst (λ n. y < n) (sym v.same_height) in_y in
    let (pixels, config) =
      draw_layers-pixels m.layers area wide exclude_id x y i small m.layer_stack m.back_buffer free
        v.drawable v.back_config in_x' in_y' in
    let supported : IsSupported m.screen back = (
      v.supported.0 ∙ ap (λ (c : FrameBufferConfig). c.pixel_format) (sym config),
      v.supported.1,
    ) in
    let (copies, shown) =
      copy-pixels m.screen area.pos back area v.screen_config
        (subst IsConfig (sym config) v.back_config) wide x y i in_x in_y small supported in
    ap (λ (r : Code × FrameBuffer). pixel_byte r.1 x y i) copies
    ∙ shown
    ∙ rw
        (
          ℤ_self area.pos.x x,
          ℤ_self area.pos.y y,
          on_screen back.config x y (subst IsConfig (sym config) v.back_config)
              (subst (λ (c : FrameBufferConfig). x < c.horizontal_resolution) (sym config) in_x')
              (subst (λ (c : FrameBufferConfig). y < c.vertical_resolution) (sym config) in_y'),
          pixels,
        )
        (if_inside _ _ _ (contains area (point x y)))
