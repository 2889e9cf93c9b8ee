-- ===== src/Mouse/Tests.antt =====
-- A mouse over two windows, and the instances of the theorems.
use mikan_os.Prelude.{
  ℕ, ◌≡◌, refl, List, [], ◌∷◌, Bool, true, false, none, some, arith, ◌==◌, if◌then◌else◌,
}
use mikan_os.Prelude.Int.{ℤ, ◌+ℤ◌}
use mikan_os.Graphics.{Vector2D, Rectangle, origin}
use mikan_os.Graphics.Rectangles.{contains}
use mikan_os.Graphics.Buffer.{PixelFormat, FrameBufferConfig, FrameBuffer}
use mikan_os.Task.{Task, TaskManager}
use mikan_os.Window.{Window, black}
use mikan_os.Layer.{Layer, find_layer}
use mikan_os.Layer.Active.{Desktop}
use mikan_os.Mouse.{Mouse, on_interrupt, send_mouse_message}
use mikan_os.Mouse.Messages.{send_mouse_message-nothing}
use mikan_os.Mouse.Pointer.{IsAnchored, screen_area, interrupts, on_interrupt-screen}
use mikan_os.Mouse.Drag.{AllHeld, IsDragging, interrupts-IsDragging}

abbrev config : FrameBufferConfig
config = record {
  pixels_per_scan_line = 6;
  horizontal_resolution = 6;
  vertical_resolution = 4;
  pixel_format = PixelFormat.bgr_resv_8bit_per_color;
}

abbrev buffer : FrameBuffer
buffer = record { config = config; memory = λ a. 0 }

abbrev point : ℕ → ℕ → Vector2D
point x y = record { x = ℤ.pos x; y = ℤ.pos y }

abbrev window : Window
window = record {
  width = ℤ.pos 2;
  height = ℤ.pos 1;
  content = λ y x. black;
  transparent_color = none;
  shadow_buffer = buffer;
  toplevel = false;
}

abbrev layer_at : ℕ → ℕ → ℕ → Layer
layer_at id x y = record { id = id; pos = point x y; window = some window; draggable = true }

abbrev main_task : Task ℕ
main_task = record { id = 1; context = 10; msgs = []; level = 1; running = true }

abbrev scheduler : TaskManager ℕ
scheduler = record {
  tasks = main_task ∷ [];
  latest_id = 1;
  running = λ level. if level == 1 then 1 ∷ [] else [];
  current_level = 1;
  level_changed = false;
  finish_tasks = [];
  finish_waiter = [];
}

abbrev desktop : Desktop ℕ
desktop = record {
  manager = record {
    screen = buffer;
    back_buffer = buffer;
    layers = layer_at 2 1 0 ∷ layer_at 9 3 1 ∷ [];
    layer_stack = 2 ∷ 9 ∷ [];
    latest_id = 9;
  };
  active_layer = 2;
  mouse_layer = 9;
  layer_task_map = (2, 1) ∷ [];
  tasks = scheduler;
}

-- The left button is down on layer 2.
abbrev dragging : Mouse
dragging = record { layer_id = 9; position = point 3 1; drag_layer_id = 2; previous_buttons = 1 }

abbrev nowhere : Rectangle
nowhere = record { pos = origin; size = origin }

abbrev still : Bool → Window → Window
still active w = w

dragging-IsAnchored : IsAnchored (dragging, desktop)
unfolding find_layer
dragging-IsAnchored = record {
  placed = refl;
  apart = λ e. omega arith;
  numbered = λ e. omega arith;
}

abbrev far : List (ℕ × Vector2D)
far = (1, point 100 0) ∷ []

-- Far to the right and up again: the mouse stops at the edge.
on_interrupt-screen_example :
    let s' =
      on_interrupt nowhere still config
        (interrupts nowhere still config (dragging, desktop) far)
        0
        (point 5 5) in
    IsAnchored s' × (contains (screen_area config) s'.0.position ≡ true)
on_interrupt-screen_example =
    on_interrupt-screen nowhere still config (dragging, desktop) far 0 (point 5 5)
      dragging-IsAnchored (omega arith) (omega arith)

far-AllHeld : AllHeld far
unfolding AllHeld
far-AllHeld = (refl, tt)

desktop-IsDragging : IsDragging 2 (record { x = ℤ.negsuc 1; y = ℤ.negsuc 0 }) (dragging, desktop)
unfolding find_layer ◌+ℤ◌
desktop-IsDragging = record {
  dragged = refl;
  held = refl;
  numbered = omega arith;
  other = λ e. omega arith;
  placed = refl;
}

interrupts-IsDragging_example :
    let s' = interrupts nowhere still config (dragging, desktop) far in
    IsDragging 2 (record { x = ℤ.negsuc 1; y = ℤ.negsuc 0 }) s' × (s'.1.tasks ≡ desktop.tasks)
interrupts-IsDragging_example =
    interrupts-IsDragging nowhere still config 2 (record { x = ℤ.negsuc 1; y = ℤ.negsuc 0 })
      (dragging, desktop) far far-AllHeld desktop-IsDragging

-- The active layer 2 belongs to task 1, which hears nothing of a click.
send_mouse_message-nothing_example :
    send_mouse_message desktop (point 3 1) (point 1 0) 1 0 ≡ desktop
send_mouse_message-nothing_example =
    send_mouse_message-nothing desktop (point 3 1) (point 1 0) 1 0 refl
