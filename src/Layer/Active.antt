-- ===== src/Layer/Active.antt =====
-- ActiveLayer, CloseLayer and ProcessLayerMessage of kernel/layer.cpp, over the scheduler.
use mikan_os.Prelude.{
  ℕ, List, [], ◌∷◌, Option, Bool, true, false, none, some, ltb, ◌==◌, if◌then◌else◌,
}
use mikan_os.Prelude.Int.{ℤ, ◌-ℤ◌}
use mikan_os.Error.{Code}
use mikan_os.Message.{MessageArg, LayerOperation}
use mikan_os.Task.{TaskManager, send_message}
use mikan_os.Graphics.{Vector2D, Rectangle, origin}
use mikan_os.Graphics.Buffer.{int_of_u32}
use mikan_os.Window.{Window, size}
use mikan_os.Layer.{
  Layer, LayerManager, find_layer, change_layer, up_down, get_height, remove_layer, draw_area,
  draw_id, draw_id_area, move_layer, move_relative,
}

-- The globals that the functions change: the layers, the active layer, the task of each layer, and the
-- scheduler.
pub record Desktop (C : Type 0) : Type 0 where
  pub manager : LayerManager
  pub active_layer : ℕ
  pub mouse_layer : ℕ
  pub layer_task_map : List (ℕ × ℕ)
  pub tasks : TaskManager C

unfoldable pub task_of : ℕ → List (ℕ × ℕ) → Option ℕ
task_of layer_id [] = none
task_of layer_id ((k, task_id) ∷ rest) =
    if k == layer_id then some task_id else task_of layer_id rest

pub erase_task : ℕ → List (ℕ × ℕ) → List (ℕ × ℕ)
erase_task layer_id [] = []
erase_task layer_id ((k, task_id) ∷ rest) =
    if k == layer_id then erase_task layer_id rest else (k, task_id) ∷ erase_task layer_id rest

-- The order of the layers when `id` becomes active: directly below the mouse.
unfoldable pub bring_up : ℕ → ℕ → LayerManager → LayerManager
bring_up mouse_layer id m =
    let low = up_down m id (ℤ.pos 0) in up_down low id (get_height low mouse_layer -ℤ ℤ.pos 1)

-- `paint` stands for what `Activate` and `Deactivate` of a window paint into it.
module _ (paint : Bool → Window → Window) where
  -- `GetWindow()->Activate()` and `GetWindow()->Deactivate()`.
  abbrev pub paint_layer : Bool → Layer → Layer
  paint_layer active l = record l {
    window = elim l.window [ none ↦ none | some w ↦ some (paint active w) ];
  }

  abbrev pub repaint : ℕ → Bool → LayerManager → LayerManager
  repaint id active m = record m { layers = change_layer id (paint_layer active) m.layers }

module _ (unset : Rectangle) where
  -- `ProcessLayerMessage`, for the argument of a message about a layer; numbers of the message are
  -- bit patterns of `int`.
  pub process_layer_message : LayerManager → LayerOperation → (layer_id x y w h : ℕ) → LayerManager
  process_layer_message m op layer_id x y w h =
      let pos : Vector2D = record { x = int_of_u32 x; y = int_of_u32 y } in
      elim op [
        | LayerOperation.move ↦ move_layer unset m layer_id pos
        | LayerOperation.move_relative ↦ move_relative unset m layer_id pos
        | LayerOperation.draw ↦ draw_id unset m layer_id
        | LayerOperation.draw_area ↦
            draw_id_area unset m layer_id
              (record { pos = pos; size = record { x = int_of_u32 w; y = int_of_u32 h } })
      ]

-- `unset` is what the source leaves unset in `Draw`.
module _ {C : Type 0} (unset : Rectangle) (paint : Bool → Window → Window) where
  -- `SendWindowActiveMessage`.
  unfoldable pub send_window_active_message : Desktop C → ℕ → ℕ → Code × Desktop C
  send_window_active_message d layer_id activate = elim (task_of layer_id d.layer_task_map) [
    | none ↦ (Code.no_such_task, d)
    | some task_id ↦
        let (code, tasks) =
          send_message d.tasks task_id
            (record { src_task = 0; arg = MessageArg.window_active activate }) in
        (code, record d { tasks = tasks })
  ]

  unfoldable pub with_manager : (LayerManager → LayerManager) → Desktop C → Desktop C
  with_manager f d = record d { manager = f d.manager }

  -- The two halves of `Activate`.
  unfoldable pub deactivate_old : Desktop C → Desktop C
  deactivate_old d =
      let id = d.active_layer in
      let drawn = with_manager (λ m. draw_id unset (repaint paint id false m) id) d in
      if ltb 0 id then (send_window_active_message drawn id 0).1 else d

  unfoldable pub activate_new : Desktop C → ℕ → Desktop C
  activate_new d id =
      let set = record d { active_layer = id } in
      let drawn =
        with_manager (λ m. draw_id unset (bring_up d.mouse_layer id (repaint paint id true m)) id)
          set in
      if ltb 0 id then (send_window_active_message drawn id 1).1 else set

  -- `ActiveLayer::Activate`.
  unfoldable pub activate : Desktop C → ℕ → Desktop C
  activate d layer_id =
      if d.active_layer == layer_id then d else activate_new (deactivate_old d) layer_id

  -- `CloseLayer`.
  pub close_layer : Desktop C → ℕ → Code × Desktop C
  close_layer d layer_id = elim (find_layer layer_id d.manager.layers) [
    | none ↦ (Code.no_such_entry, d)
    | some l ↦
        let inactive = activate d 0 in
        let area : Rectangle = record {
          pos = l.pos;
          size = elim l.window [ none ↦ origin | some w ↦ size w ];
        } in
        let drawn = with_manager (λ m. draw_area (remove_layer m layer_id) area) inactive in
        (Code.success, record drawn { layer_task_map = erase_task layer_id drawn.layer_task_map })
  ]
