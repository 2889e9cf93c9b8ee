-- ===== src/Mouse/Pointer.antt =====
-- The pointer stays on the screen, and its layer follows it.
use mikan_os.Prelude.{
  ℕ, ◌≡◌, ◌≢◌, refl, ◌∙◌, ap, List, [], ◌∷◌, Bool, true, some, ltb, ◌==◌, if◌then◌else◌, arith,
  Option-cases, Bool-cases, inl, inr, if_both,
}
use mikan_os.Prelude.Int.{ℤ, ◌+ℤ◌, ◌≤ℤ◌, max_ℤ, min_ℤ, +ℤ_parts}
use mikan_os.Graphics.{Vector2D, ◌+v◌, ◌-v◌, Rectangle, origin, element_max}
use mikan_os.Graphics.Rectangles.{within, contains}
use mikan_os.Graphics.Buffer.{FrameBufferConfig}
use mikan_os.Window.{Window}
use mikan_os.Layer.{
  Layer, at_position, find_last, find_layer_by_position, move_layer, move_relative,
}
use mikan_os.Layer.Active.{Desktop, with_manager}
use mikan_os.Layer.Places.{place_of, find_layer-id, move_by-place, activate-place}
use mikan_os.Mouse.Messages.{send_mouse_message-manager, send_close_message-manager}
use mikan_os.Mouse.{
  Mouse, left_pressed, screen_size, new_position, send_mouse_message, send_close_message,
  set_position, press_region, pressed_layer, press, handle_left, on_interrupt,
}

abbrev pub screen_area : FrameBufferConfig → Rectangle
screen_area config = record { pos = origin; size = screen_size config }

-- The layer of the pointer is where the mouse is, and it is not the one that is dragged.
pub record IsAnchored {C : Type 0} (s : Mouse × Desktop C) : Type 0 where
  pub placed : place_of s.0.layer_id s.1.manager ≡ some s.0.position
  pub apart : s.0.drag_layer_id ≢ s.0.layer_id
  pub numbered : 0 ≢ s.0.layer_id

clamped :
    (size a : ℤ)
    → ℤ.pos 1 ≤ℤ size
    → within (ℤ.pos 0) size (max_ℤ (min_ℤ a (size +ℤ ℤ.negsuc 0)) (ℤ.pos 0)) ≡ true
clamped size a h = ground (arith, +ℤ_parts size (ℤ.negsuc 0), +ℤ_parts (ℤ.pos 0) size)

new_position-screen :
    (config : FrameBufferConfig) (position displacement : Vector2D)
    → ℤ.pos 1 ≤ℤ (screen_size config).x
    → ℤ.pos 1 ≤ℤ (screen_size config).y
    → contains (screen_area config) (element_max (new_position config position displacement) origin)
      ≡ true
unfolding new_position
new_position-screen config position displacement wide high = ground (
  arith,
  clamped (screen_size config).x (position.x +ℤ displacement.x) wide,
  clamped (screen_size config).y (position.y +ℤ displacement.y) high,
)

find_last-holds :
    (pred : ℕ → Bool) (xs : List ℕ) (x : ℕ) → find_last pred xs ≡ some x → pred x ≡ true
unfolding find_last
find_last-holds pred [] x e = absurd (ground arith)
find_last-holds pred (y ∷ xs) x e = elim (Option-cases (find_last pred xs)) [
  | inl nothing ↦ elim (Bool-cases (pred y)) [
    | inl holds ↦ ground arith
    | inr fails ↦ absurd (ground arith)
  ]
  | inr (z, found) ↦ find_last-holds pred xs x (ground arith)
]

press_region-drag :
    (drag : ℕ) (position : Vector2D) (l : Layer) (excluded : ℕ)
    → drag ≢ excluded
    → l.id ≢ excluded
    → (press_region drag position l).0 ≢ excluded
unfolding press_region
press_region-drag drag position l excluded apart other = ground arith

module _ {C : Type 0} (unset : Rectangle) (paint : Bool → Window → Window) where
  -- The layer that the button goes down on is not that of the mouse.
  pressed_layer-other :
      (m : Mouse) (d : Desktop C) (l : Layer) → pressed_layer m d ≡ some l → l.id ≢ m.layer_id
  unfolding pressed_layer find_layer_by_position at_position
  pressed_layer-other m d l e same =
      let pred = at_position d.manager.layers m.position m.layer_id in
      elim (Option-cases (find_last pred d.manager.layer_stack)) [
        | inl nothing ↦ absurd (ground arith)
        | inr (id, found) ↦
            let at = find_layer-id id d.manager.layers l (ground arith) in
            let holds = find_last-holds pred d.manager.layer_stack id found in absurd (ground arith)
      ]

  press-drag :
      (m : Mouse) (d : Desktop C)
      → m.drag_layer_id ≢ m.layer_id
      → (press unset paint m d).0 ≢ m.layer_id
  unfolding press
  press-drag m d apart = elim (Option-cases (pressed_layer m d)) [
    | inl nothing ↦ rw (press, nothing) apart
    | inr (l, e) ↦
        rw (press, e)
          (if_both (λ (r : ℕ × (ℕ × Desktop C)). r.0 ≢ m.layer_id) l.draggable
            (press_region-drag m.drag_layer_id m.position l m.layer_id apart
              (pressed_layer-other m d l e))
            apart)
  ]

  press-place :
      (m : Mouse) (d : Desktop C) (id : ℕ)
      → place_of id (press unset paint m d).1.1.manager ≡ place_of id d.manager
  unfolding press
  press-place m d id = elim (Option-cases (pressed_layer m d)) [
    | inl nothing ↦ rw (press, nothing) (activate-place unset paint d 0 id)
    | inr (l, e) ↦
        rw (press, e)
          (if_both (λ (r : ℕ × (ℕ × Desktop C)). place_of id r.1.1.manager ≡ place_of id d.manager)
            l.draggable (activate-place unset paint d l.id id) (activate-place unset paint d 0 id))
  ]

  handle_left-drag :
      (m : Mouse) (d : Desktop C) (posdiff : Vector2D) (buttons : ℕ)
      → m.drag_layer_id ≢ m.layer_id
      → 0 ≢ m.layer_id
      → (handle_left unset paint m d posdiff buttons).0 ≢ m.layer_id
  unfolding handle_left
  handle_left-drag m d posdiff buttons apart numbered =
      let result = λ (r : ℕ × (ℕ × Desktop C)). r.0 ≢ m.layer_id in
      if_both result (left_pressed buttons)
        (if_both result (left_pressed m.previous_buttons) apart (press-drag m d apart))
        (if_both result (left_pressed m.previous_buttons) numbered apart)

  -- Of the layers but the one that is dragged, none changes its place.
  handle_left-place :
      (m : Mouse) (d : Desktop C) (posdiff : Vector2D) (buttons id : ℕ)
      → m.drag_layer_id ≢ id
      → place_of id (handle_left unset paint m d posdiff buttons).1.1.manager
        ≡ place_of id d.manager
  unfolding handle_left with_manager move_relative
  handle_left-place m d posdiff buttons id apart =
      let kept = λ (r : ℕ × (ℕ × Desktop C)). place_of id r.1.1.manager ≡ place_of id d.manager in
      if_both kept (left_pressed buttons)
        (if_both kept (left_pressed m.previous_buttons)
          (if_both (λ (e : Desktop C). place_of id e.manager ≡ place_of id d.manager)
            (ltb 0 m.drag_layer_id)
            (move_by-place unset d.manager m.drag_layer_id (λ pos. pos +v posdiff) id
              ∙ ground arith)
            refl)
          (press-place m d id))
        (if_both kept (left_pressed m.previous_buttons) refl refl)

  set_position-place :
      (m : Mouse) (d : Desktop C) (position : Vector2D)
      → place_of m.layer_id d.manager ≡ some m.position
      → place_of m.layer_id (set_position unset paint (m, d) position).1.manager ≡ some position
  unfolding set_position with_manager move_layer
  set_position-place m d position placed =
      move_by-place unset d.manager m.layer_id (λ pos. position) m.layer_id ∙ ground arith

module _ {C : Type 0} (unset : Rectangle) (paint : Bool → Window → Window)
    (config : FrameBufferConfig) where
  -- Interrupts of the mouse one after another: the buttons and the displacement of each.
  unfoldable pub interrupts : Mouse × Desktop C → List (ℕ × Vector2D) → Mouse × Desktop C
  interrupts s [] = s
  interrupts s ((buttons, displacement) ∷ es) =
      interrupts (on_interrupt unset paint config s buttons displacement) es

  sent-place :
      (d : Desktop C) (newpos posdiff : Vector2D) (drag close buttons previous id : ℕ)
      → let sent =
          if close == 0
          then send_mouse_message d newpos posdiff buttons previous
          else send_close_message d in
        place_of id (if drag == 0 then sent else d).manager ≡ place_of id d.manager
  sent-place d newpos posdiff drag close buttons previous id =
      let kept = λ (e : Desktop C). place_of id e.manager ≡ place_of id d.manager in
      if_both kept (drag == 0)
        (if_both kept (close == 0)
          (ap (place_of id) (send_mouse_message-manager d newpos posdiff buttons previous))
          (ap (place_of id) (send_close_message-manager d)))
        refl

  on_interrupt-IsAnchored :
      (s : Mouse × Desktop C) (buttons : ℕ) (displacement : Vector2D)
      → IsAnchored s
      → IsAnchored (on_interrupt unset paint config s buttons displacement)
  unfolding on_interrupt set_position
  on_interrupt-IsAnchored (m, d) buttons displacement v =
      let newpos = new_position config m.position displacement in
      let position = element_max newpos origin in
      let posdiff = position -v m.position in
      let (moved, e) = set_position unset paint (m, d) position in
      let (drag, (close, d')) = handle_left unset paint moved e posdiff buttons in
      record {
        placed =
            sent-place d' newpos posdiff drag close buttons m.previous_buttons m.layer_id
            ∙ handle_left-place unset paint moved e posdiff buttons m.layer_id v.apart
            ∙ set_position-place unset paint m d position v.placed;
        apart = handle_left-drag unset paint moved e posdiff buttons v.apart v.numbered;
        numbered = v.numbered;
      }

  interrupts-IsAnchored :
      (s : Mouse × Desktop C) (es : List (ℕ × Vector2D))
      → IsAnchored s
      → IsAnchored (interrupts s es)
  unfolding interrupts
  interrupts-IsAnchored s [] v = v
  interrupts-IsAnchored s ((buttons, displacement) ∷ es) v =
      interrupts-IsAnchored (on_interrupt unset paint config s buttons displacement) es
        (on_interrupt-IsAnchored s buttons displacement v)

  -- On a screen of at least one pixel, where the layer of the mouse is known, has a number, is not
  -- dragged and stands where the mouse is: after any interrupts, and one more, this is so again, and
  -- the mouse is on the screen.
  pub on_interrupt-screen :
      (s : Mouse × Desktop C) (es : List (ℕ × Vector2D)) (buttons : ℕ) (displacement : Vector2D)
      → IsAnchored s
      → ℤ.pos 1 ≤ℤ (screen_size config).x
      → ℤ.pos 1 ≤ℤ (screen_size config).y
      → let s' = on_interrupt unset paint config (interrupts s es) buttons displacement in
        IsAnchored s' × (contains (screen_area config) s'.0.position ≡ true)
  unfolding on_interrupt set_position
  on_interrupt-screen s es buttons displacement v wide high =
      let before = interrupts-IsAnchored s es v in
      (
        on_interrupt-IsAnchored (interrupts s es) buttons displacement before,
        new_position-screen config (interrupts s es).0.position displacement wide high,
      )
