-- ===== src/Mouse/Drag.antt =====
-- While the left button is held, the dragged layer follows the pointer.
use mikan_os.Prelude.{
  subst, ℕ, ◌≡◌, ◌≢◌, ◌<◌, refl, ◌∙◌, ap₂, sym, List, [], ◌∷◌, Bool, true, some, arith, ==_no,
  lt→ltb,
}
use mikan_os.Prelude.Int.{ℤ, ◌+ℤ◌, ◌-ℤ◌, +ℤ_parts, -ℤ_parts, eq_of_parts}
use mikan_os.Graphics.{Vector2D, ◌+v◌, ◌-v◌, Rectangle, origin, element_max}
use mikan_os.Graphics.Buffer.{FrameBufferConfig}
use mikan_os.Window.{Window}
use mikan_os.Layer.{move_layer, move_relative}
use mikan_os.Layer.Active.{Desktop, with_manager}
use mikan_os.Layer.Places.{place_of, move_by-place}
use mikan_os.Mouse.{Mouse, left_pressed, new_position, set_position, handle_left, on_interrupt}
use mikan_os.Mouse.Pointer.{interrupts}

-- All of the interrupts have the left button down.
unfoldable pub AllHeld : List (ℕ × Vector2D) → Type 0
AllHeld [] = Unit
AllHeld ((buttons, displacement) ∷ es) = (left_pressed buttons ≡ true) × AllHeld es

-- The left button is down on the layer `id`, which stands at `offset` from the mouse.
pub record IsDragging {C : Type 0} (id : ℕ) (offset : Vector2D) (s : Mouse × Desktop C)
    : Type 0 where
  pub dragged : s.0.drag_layer_id ≡ id
  pub held : left_pressed s.0.previous_buttons ≡ true
  pub numbered : 0 < id
  pub other : s.0.layer_id ≢ id
  pub placed : place_of id s.1.manager ≡ some (s.0.position +v offset)

follows : (o n k : ℤ) → o +ℤ k +ℤ (n -ℤ o) ≡ n +ℤ k
follows o n k = omega (
  arith,
  +ℤ_parts o k,
  +ℤ_parts (o +ℤ k) (n -ℤ o),
  -ℤ_parts n o,
  +ℤ_parts n k,
  eq_of_parts (o +ℤ k +ℤ (n -ℤ o)) (n +ℤ k),
)

module _ {C : Type 0} (unset : Rectangle) (paint : Bool → Window → Window)
    (config : FrameBufferConfig) where
  handle_left-held :
      (m : Mouse) (d : Desktop C) (posdiff : Vector2D) (buttons : ℕ)
      → left_pressed buttons ≡ true
      → left_pressed m.previous_buttons ≡ true
      → 0 < m.drag_layer_id
      → handle_left unset paint m d posdiff buttons ≡ (
        m.drag_layer_id,
        (0, with_manager unset paint (λ l. move_relative unset l m.drag_layer_id posdiff) d),
      )
  unfolding handle_left
  handle_left-held m d posdiff buttons now before some_layer =
      rw (handle_left, now, before, lt→ltb 0 m.drag_layer_id some_layer) refl

  -- The interrupt of a mouse that drags moves two layers and does nothing else.
  dragged_desktop : Mouse → Desktop C → Vector2D → Desktop C
  dragged_desktop m d position =
      with_manager unset paint
        (λ l.
          move_relative unset (move_layer unset l m.layer_id position) m.drag_layer_id
            (position -v m.position))
        d

  on_interrupt-held :
      (m : Mouse) (d : Desktop C) (buttons : ℕ) (displacement : Vector2D)
      → left_pressed buttons ≡ true
      → left_pressed m.previous_buttons ≡ true
      → 0 < m.drag_layer_id
      → let position = element_max (new_position config m.position displacement) origin in
        on_interrupt unset paint config (m, d) buttons displacement ≡ (
          record m { position = position; previous_buttons = buttons },
          dragged_desktop m d position,
        )
  unfolding on_interrupt set_position with_manager dragged_desktop
  on_interrupt-held m d buttons displacement now before some_layer =
      let position = element_max (new_position config m.position displacement) origin in
      let (moved, e) = set_position unset paint (m, d) position in
      let dragging : m.drag_layer_id ≢ 0 = λ z. omega arith in
      rw
        (
          on_interrupt,
          handle_left-held moved e (position -v m.position) buttons now before some_layer,
          ==_no m.drag_layer_id 0 dragging,
        )
        refl

  dragged_desktop-place :
      (m : Mouse) (d : Desktop C) (position offset : Vector2D)
      → m.layer_id ≢ m.drag_layer_id
      → place_of m.drag_layer_id d.manager ≡ some (m.position +v offset)
      → place_of m.drag_layer_id (dragged_desktop m d position).manager ≡ some (position +v offset)
  unfolding dragged_desktop with_manager move_relative move_layer
  dragged_desktop-place m d position offset other placed =
      let id = m.drag_layer_id in
      let posdiff = position -v m.position in
      let before : place_of id (move_layer unset d.manager m.layer_id position)
          ≡ some (m.position +v offset) =
        move_by-place unset d.manager m.layer_id (λ pos. position) id ∙ ground arith in
      let after : place_of id (dragged_desktop m d position).manager
          ≡ some (m.position +v offset +v posdiff) =
        move_by-place unset (move_layer unset d.manager m.layer_id position) id
          (λ pos. pos +v posdiff) id
        ∙ ground arith in
      after
      ∙ ap₂ (λ x y. some (record { x = x; y = y })) (follows m.position.x position.x offset.x)
          (follows m.position.y position.y offset.y)

  on_interrupt-IsDragging :
      (id : ℕ) (offset : Vector2D) (s : Mouse × Desktop C) (buttons : ℕ) (displacement : Vector2D)
      → left_pressed buttons ≡ true
      → IsDragging id offset s
      → let s' = on_interrupt unset paint config s buttons displacement in
        IsDragging id offset s' × (s'.1.tasks ≡ s.1.tasks)
  unfolding dragged_desktop with_manager
  on_interrupt-IsDragging id offset (m, d) buttons displacement now v =
      let position = element_max (new_position config m.position displacement) origin in
      rw
        (on_interrupt-held m d buttons displacement now v.held
          (subst (λ k. 0 < k) (sym v.dragged) v.numbered))
        (
          record {
            dragged = v.dragged;
            held = now;
            numbered = v.numbered;
            other = v.other;
            placed =
                subst
                  (λ k.
                    place_of k (dragged_desktop m d position).manager ≡ some (position +v offset))
                  v.dragged
                  (dragged_desktop-place m d position offset
                    (subst (λ k. m.layer_id ≢ k) (sym v.dragged) v.other)
                    (subst (λ k. place_of k d.manager ≡ some (m.position +v offset)) (sym v.dragged)
                      v.placed));
          },
          refl,
        )

  -- While the left button stays down on a layer that is dragged, the layer keeps its distance from
  -- the mouse, whatever the mouse does, and no task gets a message.
  pub interrupts-IsDragging :
      (id : ℕ) (offset : Vector2D) (s : Mouse × Desktop C) (es : List (ℕ × Vector2D))
      → AllHeld es
      → IsDragging id offset s
      → let s' = interrupts unset paint config s es in
        IsDragging id offset s' × (s'.1.tasks ≡ s.1.tasks)
  unfolding interrupts AllHeld
  interrupts-IsDragging id offset s [] held v = (v, refl)
  interrupts-IsDragging id offset s ((buttons, displacement) ∷ es) (now, later) v =
      let (v', same) = on_interrupt-IsDragging id offset s buttons displacement now v in
      let (v'', same') =
        interrupts-IsDragging id offset (on_interrupt unset paint config s buttons displacement) es
          later v' in
      (v'', same' ∙ same)
