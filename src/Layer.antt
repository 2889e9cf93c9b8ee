-- ===== src/Layer.antt =====
-- kernel/layer.hpp and kernel/layer.cpp: the layers, their order and how they are drawn. A pointer to a
-- layer is the layer's id. The source does not test the pointers that it gets; what it then does is not
-- defined in C++. Here `UpDown` of an id that no layer has changes nothing, where the source inserts a null
-- pointer, and a layer without a window is moved and not drawn, where the source reads the size of the
-- window that is not there.
pub mod Stack
pub mod Painted
pub mod Topmost
pub mod Active
pub mod Focus
pub mod Places
mod Tests
use mikan_os.Prelude.{
  ℕ, zero, suc, ◌+◌, ◌-◌, ◌^◌, ◌%◌, List, [], ◌∷◌, ◌++◌, Bool, true, false, not, ◌&&◌, ◌||◌, Option,
  none, some, ltb, leb, ◌==◌, if◌then◌else◌, length, min,
}
use mikan_os.Prelude.Int.{ℤ, ◌+ℤ◌, ◌-ℤ◌, ltb_ℤ, leb_ℤ}
use mikan_os.Graphics.{Vector2D, ◌+v◌, Rectangle, origin, intersect}
use mikan_os.Graphics.Rectangles.{contains}
use mikan_os.Graphics.Buffer.{FrameBuffer, FrameBufferConfig, copy, initialize}
use mikan_os.Window.{Window, size, draw_to}

pub record Layer : Type 0 where
  pub id : ℕ
  pub pos : Vector2D
  pub window : Option Window
  pub draggable : Bool

pub record LayerManager : Type 0 where
  pub screen : FrameBuffer
  pub back_buffer : FrameBuffer
  pub layers : List Layer
  -- the lowest layer first
  pub layer_stack : List ℕ
  pub latest_id : ℕ

-- `Layer::DrawTo`.
unfoldable pub layer_draw_to : Layer → FrameBuffer → Rectangle → FrameBuffer
layer_draw_to l screen area = elim l.window [ none ↦ screen | some w ↦ draw_to w screen l.pos area ]

-- `SetWriter`.
pub set_writer : LayerManager → FrameBuffer → LayerManager
set_writer m screen = record m { screen = screen; back_buffer = (initialize screen.config none).1 }

-- `NewLayer`, with the id of the new layer.
pub new_layer : LayerManager → LayerManager × ℕ
new_layer m =
    let id = (m.latest_id + 1) % 2 ^ 32 in
    (
      record m {
        latest_id = id;
        layers =
            m.layers ++ (record { id = id; pos = origin; window = none; draggable = false } ∷ []);
      },
      id,
    )

-- `FindLayer`.
unfoldable pub find_layer : ℕ → List Layer → Option Layer
find_layer id [] = none
find_layer id (l ∷ ls) = if l.id == id then some l else find_layer id ls

-- A change to the layer that `FindLayer` gives.
unfoldable pub change_layer : ℕ → (Layer → Layer) → List Layer → List Layer
change_layer id f [] = []
change_layer id f (l ∷ ls) = if l.id == id then f l ∷ ls else l ∷ change_layer id f ls

-- `layer_stack_.erase` of the place that `std::find` gives.
unfoldable pub erase_id : ℕ → List ℕ → List ℕ
erase_id id [] = []
erase_id id (x ∷ xs) = if x == id then xs else x ∷ erase_id id xs

-- `layer_stack_.insert`.
unfoldable pub insert_at : ℕ → ℕ → List ℕ → List ℕ
insert_at zero id xs = id ∷ xs
insert_at (suc n) id [] = id ∷ []
insert_at (suc n) id (x ∷ xs) = x ∷ insert_at n id xs

-- `GetHeight`; `none` is -1.
unfoldable pub height_of : ℕ → List ℕ → Option ℕ
height_of id [] = none
height_of id (x ∷ xs) =
    if x == id then some 0 else elim (height_of id xs) [ none ↦ none | some h ↦ some (suc h) ]

abbrev pub get_height : LayerManager → ℕ → ℤ
get_height m id = elim (height_of id m.layer_stack) [ none ↦ ℤ.negsuc 0 | some h ↦ ℤ.pos h ]

-- `Hide`.
unfoldable pub hide : LayerManager → ℕ → LayerManager
hide m id = elim (find_layer id m.layers) [
  | none ↦ m
  | some l ↦ record m { layer_stack = erase_id id m.layer_stack }
]

-- The stack after `UpDown` of a layer to a height that is not negative.
unfoldable pub raise : ℕ → ℕ → List ℕ → List ℕ
raise id new_height stack =
    let h = if ltb (length stack) new_height then length stack else new_height in
    elim (height_of id stack) [
      | none ↦ insert_at h id stack
      | some old ↦ insert_at (if h == length stack then h - 1 else h) id (erase_id id stack)
    ]

-- `UpDown`, for a layer that is there; without one nothing changes.
unfoldable pub up_down : LayerManager → ℕ → ℤ → LayerManager
up_down m id (ℤ.negsuc h) = hide m id
up_down m id (ℤ.pos h) = elim (find_layer id m.layers) [
  | none ↦ m
  | some l ↦ record m { layer_stack = raise id h m.layer_stack }
]

-- `RemoveLayer`.
unfoldable pub without : ℕ → List Layer → List Layer
without id [] = []
without id (l ∷ ls) = if l.id == id then without id ls else l ∷ without id ls

pub remove_layer : LayerManager → ℕ → LayerManager
remove_layer m id = let hidden = hide m id in record hidden { layers = without id hidden.layers }

-- The loop of `Draw(area)`.
unfoldable pub draw_layers : List Layer → List ℕ → Rectangle → FrameBuffer → FrameBuffer
draw_layers layers [] area back = back
draw_layers layers (id ∷ ids) area back =
    draw_layers layers ids area
      (elim (find_layer id layers) [ none ↦ back | some l ↦ layer_draw_to l back area ])

-- `Draw(area)`.
unfoldable pub draw_area : LayerManager → Rectangle → LayerManager
draw_area m area =
    let back = draw_layers m.layers m.layer_stack area m.back_buffer in
    record m { back_buffer = back; screen = (copy m.screen area.pos back area).1 }

-- `area` of `Draw(id, area)` after the window that stands at `frame`: shifted, if it has a size.
pub shift_area : Rectangle → Rectangle → Rectangle
shift_area frame area =
    if leb_ℤ (ℤ.pos 0) area.size.x || leb_ℤ (ℤ.pos 0) area.size.y
    then record { pos = area.pos +v frame.pos; size = area.size }
    else area

-- The area that `Draw(id, area)` draws of the window that stands at `frame`.
pub clip : Rectangle → Rectangle → Rectangle
clip frame area =
    if leb_ℤ (ℤ.pos 0) area.size.x || leb_ℤ (ℤ.pos 0) area.size.y
    then intersect frame (shift_area frame area)
    else frame

-- The loop of `Draw(id, area)`: the last `window_area` and the back buffer.
unfoldable pub draw_from :
    List Layer → List ℕ → ℕ → Rectangle → Bool → Rectangle → FrameBuffer → Rectangle × FrameBuffer
draw_from layers [] id area drawing window_area back = (window_area, back)
draw_from layers (x ∷ ids) id area drawing window_area back =
    let skip = draw_from layers ids id area drawing window_area back in
    elim (find_layer x layers) [
      | none ↦ skip
      | some l ↦
          let frame : Rectangle = record {
            pos = l.pos;
            size = elim l.window [ none ↦ origin | some w ↦ size w ];
          } in
          let window_area' = if l.id == id then clip frame area else window_area in
          let area' = if l.id == id then shift_area frame area else area in
          let drawing' = drawing || l.id == id in
          draw_from layers ids id area' drawing' window_area'
            (if drawing' then layer_draw_to l back window_area' else back)
    ]

module _ (unset : Rectangle) where
  -- `Draw(id, area)`. The source leaves `window_area` unset at first: it is `unset` here.
  unfoldable pub draw_id_area : LayerManager → ℕ → Rectangle → LayerManager
  draw_id_area m id area =
      let (window_area, back) =
        draw_from m.layers m.layer_stack id area false unset m.back_buffer in
      record m { back_buffer = back; screen = (copy m.screen window_area.pos back window_area).1 }

  -- `Draw(id)`.
  unfoldable pub draw_id : LayerManager → ℕ → LayerManager
  draw_id m id =
      draw_id_area m id (record { pos = origin; size = record { x = ℤ.negsuc 0; y = ℤ.negsuc 0 } })

  -- The two moves: the change of the position is an argument. They are those of the source for a layer
  -- with a window; one without a window is moved only.
  pub move_by : LayerManager → ℕ → (Vector2D → Vector2D) → LayerManager
  move_by m id f = elim (find_layer id m.layers) [
    | none ↦ m
    | some l ↦
        let moved = record m {
          layers = change_layer id (λ k. record k { pos = f k.pos }) m.layers;
        } in
        elim l.window [
          | none ↦ moved
          | some w ↦ draw_id (draw_area moved (record { pos = l.pos; size = size w })) id
        ]
  ]

  unfoldable pub move_layer : LayerManager → ℕ → Vector2D → LayerManager
  move_layer m id new_pos = move_by m id (λ pos. new_pos)

  unfoldable pub move_relative : LayerManager → ℕ → Vector2D → LayerManager
  move_relative m id pos_diff = move_by m id (λ pos. pos +v pos_diff)

-- The test of `FindLayerByPosition`.
unfoldable pub at_position : List Layer → Vector2D → ℕ → ℕ → Bool
at_position layers pos exclude_id id =
    if id == exclude_id then false else elim (find_layer id layers) [
      | none ↦ false
      | some l ↦ elim l.window [
        | none ↦ false
        | some w ↦ contains (record { pos = l.pos; size = size w }) pos
      ]
    ]

-- `std::find_if` from the end.
unfoldable pub find_last : (ℕ → Bool) → List ℕ → Option ℕ
find_last pred [] = none
find_last pred (x ∷ xs) = elim (find_last pred xs) [
  | some y ↦ some y
  | none ↦ if pred x then some x else none
]

-- `FindLayerByPosition`.
unfoldable pub find_layer_by_position : LayerManager → Vector2D → ℕ → Option ℕ
find_layer_by_position m pos exclude_id =
    find_last (at_position m.layers pos exclude_id) m.layer_stack
