-- ===== src/Mouse.antt =====
-- kernel/mouse.hpp and kernel/mouse.cpp: the mouse over the layers and the scheduler. The shape of the
-- cursor is not modelled.
pub mod Messages
pub mod Pointer
pub mod Drag
mod Tests
use mikan_os.Prelude.{
  ℕ, zero, suc, ◌/◌, ◌%◌, ◌^◌, Bool, not, ◌&&◌, Option, none, some, ltb, ◌==◌, bit_xor,
  if◌then◌else◌,
}
use mikan_os.Prelude.Int.{ℤ}
use mikan_os.Message.{MessageArg}
use mikan_os.Task.{send_message}
use mikan_os.Graphics.{Vector2D, ◌+v◌, ◌-v◌, element_min, element_max, Rectangle, origin}
use mikan_os.Graphics.Buffer.{FrameBufferConfig, frame_buffer_size, u32_of_int}
use mikan_os.Window.{Window, WindowRegion, region_at, same_int}
use mikan_os.Layer.{Layer, find_layer, find_layer_by_position, move_layer, move_relative}
use mikan_os.Layer.Active.{Desktop, task_of, with_manager, activate}

pub record Mouse : Type 0 where
  pub layer_id : ℕ
  pub position : Vector2D
  -- 0 for no layer
  pub drag_layer_id : ℕ
  pub previous_buttons : ℕ

-- `Mouse::Mouse`.
pub new_mouse : ℕ → Mouse
new_mouse layer_id = record {
  layer_id = layer_id;
  position = origin;
  drag_layer_id = 0;
  previous_buttons = 0;
}

-- The digit of weight 2 ^ i: `(buttons >> i) & 1`.
abbrev pub button_bit : ℕ → ℕ → ℕ
button_bit buttons i = buttons / 2 ^ i % 2

abbrev pub left_pressed : ℕ → Bool
left_pressed buttons = button_bit buttons 0 == 1

-- `ScreenSize`, of the configuration of the screen.
abbrev pub screen_size : FrameBufferConfig → Vector2D
screen_size config = frame_buffer_size config

-- `newpos` of `OnInterrupt`: the lower bound is not applied yet.
unfoldable pub new_position : FrameBufferConfig → Vector2D → Vector2D → Vector2D
new_position screen_config position displacement =
    element_min (position +v displacement)
      (screen_size screen_config +v record { x = ℤ.negsuc 0; y = ℤ.negsuc 0 })

-- The switch on the region of the pressed layer: the layer to drag and the layer to close.
unfoldable pub press_region : ℕ → Vector2D → Layer → ℕ × ℕ
press_region drag_layer_id position l = elim l.window [
  | none ↦ (drag_layer_id, 0)
  | some w ↦ elim (region_at w (position -v l.pos)) [
    | WindowRegion.title_bar ↦ (l.id, 0)
    | WindowRegion.close_button ↦ (drag_layer_id, l.id)
    | WindowRegion.border ↦ (drag_layer_id, 0)
    | WindowRegion.other ↦ (drag_layer_id, 0)
  ]
]

module _ {C : Type 0} where
  -- `FindActiveLayerTask`.
  unfoldable pub find_active_layer_task : Desktop C → Option Layer × ℕ
  find_active_layer_task d =
      let act = d.active_layer in
      if act == 0 then (none, 0) else elim (find_layer act d.manager.layers) [
        | none ↦ (none, 0)
        | some l ↦ (some l, elim (task_of act d.layer_task_map) [ none ↦ 0 | some t ↦ t ])
      ]

  -- `task_manager->SendMessage`, whose error is not looked at.
  unfoldable pub tell : Desktop C → ℕ → MessageArg → Desktop C
  tell d task_id arg = record d {
    tasks = (send_message d.tasks task_id (record { src_task = 0; arg = arg })).1;
  }

  -- The loop over the buttons, from button `i`, with the rounds that are left.
  unfoldable pub send_buttons : ℕ → ℕ → Desktop C → ℕ → Vector2D → ℕ → ℕ → Desktop C
  send_buttons zero i d task_id relpos buttons diff = d
  send_buttons (suc n) i d task_id relpos buttons diff =
      let arg =
        MessageArg.mouse_button (u32_of_int relpos.x) (u32_of_int relpos.y) (button_bit buttons i)
          i in
      send_buttons n (suc i) (if button_bit diff i == 1 then tell d task_id arg else d) task_id
        relpos buttons diff

  -- The messages of `SendMouseMessage`, after its test.
  unfoldable pub mouse_messages : Desktop C → ℕ → Vector2D → Vector2D → ℕ → ℕ → Desktop C
  mouse_messages d task_id relpos posdiff buttons previous_buttons =
      let arg =
        MessageArg.mouse_move (u32_of_int relpos.x) (u32_of_int relpos.y) (u32_of_int posdiff.x)
          (u32_of_int posdiff.y) buttons in
      let still = same_int posdiff.x (ℤ.pos 0) && same_int posdiff.y (ℤ.pos 0) in
      let moved = if still then d else tell d task_id arg in
      let pressed =
        send_buttons 8 0 moved task_id relpos buttons (bit_xor previous_buttons buttons) in
      if previous_buttons == buttons then moved else pressed

  -- `SendMouseMessage`, with the test of the source, which gives up when there is a task.
  unfoldable pub send_mouse_message : Desktop C → Vector2D → Vector2D → ℕ → ℕ → Desktop C
  send_mouse_message d newpos posdiff buttons previous_buttons =
      let (layer, task_id) = find_active_layer_task d in
      elim layer [
        | none ↦ d
        | some l ↦
            if task_id == 0
            then mouse_messages d task_id (newpos -v l.pos) posdiff buttons previous_buttons
            else d
      ]

  -- `SendCloseMessage`.
  unfoldable pub send_close_message : Desktop C → Desktop C
  send_close_message d =
      let (layer, task_id) = find_active_layer_task d in
      elim layer [
        | none ↦ d
        | some l ↦ if task_id == 0 then d else tell d task_id (MessageArg.window_close l.id)
      ]

  -- `FindLayerByPosition`, as the layer.
  unfoldable pub pressed_layer : Mouse → Desktop C → Option Layer
  pressed_layer m d = elim (find_layer_by_position d.manager m.position m.layer_id) [
    | none ↦ none
    | some id ↦ find_layer id d.manager.layers
  ]

module _ {C : Type 0} (unset : Rectangle) (paint : Bool → Window → Window) where
  -- `SetPosition`.
  unfoldable pub set_position : Mouse × Desktop C → Vector2D → Mouse × Desktop C
  set_position (m, d) position = (
    record m { position = position },
    with_manager unset paint (λ l. move_layer unset l m.layer_id position) d,
  )

  -- The left button goes down: the layer to drag, the layer to close and the desktop.
  unfoldable pub press : Mouse → Desktop C → ℕ × (ℕ × Desktop C)
  press m d = elim (pressed_layer m d) [
    | none ↦ (m.drag_layer_id, (0, activate unset paint d 0))
    | some l ↦
        let (drag, close) = press_region m.drag_layer_id m.position l in
        if l.draggable
        then (drag, (close, activate unset paint d l.id))
        else (m.drag_layer_id, (0, activate unset paint d 0))
  ]

  -- The branches on the left button, after the mouse has moved by `posdiff`.
  unfoldable pub handle_left : Mouse → Desktop C → Vector2D → ℕ → ℕ × (ℕ × Desktop C)
  handle_left m d posdiff buttons =
      let drag = m.drag_layer_id in
      let dragged = with_manager unset paint (λ l. move_relative unset l drag posdiff) d in
      if left_pressed buttons
      then if left_pressed m.previous_buttons
        then (drag, (0, if ltb 0 drag then dragged else d))
        else press m d
      else if left_pressed m.previous_buttons
      then (0, (0, d))
      else (drag, (0, d))

module _ {C : Type 0} (unset : Rectangle) (paint : Bool → Window → Window)
    (screen_config : FrameBufferConfig) where
  -- `OnInterrupt`.
  unfoldable pub on_interrupt : Mouse × Desktop C → ℕ → Vector2D → Mouse × Desktop C
  on_interrupt (m, d) buttons displacement =
      let newpos = new_position screen_config m.position displacement in
      let position = element_max newpos origin in
      let posdiff = position -v m.position in
      let (moved, moved_desktop) = set_position unset paint (m, d) position in
      let (drag, (close, d')) = handle_left unset paint moved moved_desktop posdiff buttons in
      let sent =
        if close == 0
        then send_mouse_message d' newpos posdiff buttons m.previous_buttons
        else send_close_message d' in
      (
        record moved { drag_layer_id = drag; previous_buttons = buttons },
        if drag == 0 then sent else d',
      )
