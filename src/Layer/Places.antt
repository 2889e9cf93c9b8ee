-- ===== src/Layer/Places.antt =====
-- Where the layers stand: what the moves change of it, and that Activate changes none of it.
use mikan_os.Prelude.{
  ℕ, ◌≡◌, refl, ◌∙◌, ap, List, [], ◌∷◌, Bool, true, false, Option, none, some, ltb, ◌==◌,
  if◌then◌else◌, arith, Option-cases, Bool-cases, inl, inr,
}
use mikan_os.Prelude.Int.{ℤ, ◌-ℤ◌}
use mikan_os.Graphics.{Vector2D, Rectangle}
use mikan_os.Window.{Window}
use mikan_os.Layer.{
  Layer, LayerManager, find_layer, change_layer, up_down, hide, draw_id, draw_id_area, draw_area,
  move_by, get_height,
}
use mikan_os.Layer.Active.{
  Desktop, task_of, paint_layer, repaint, bring_up, send_window_active_message, with_manager,
  deactivate_old, activate_new, activate,
}

abbrev pub pos_of : Option Layer → Option Vector2D
pos_of none = none
pos_of (some l) = some l.pos

-- Where the layer stands, if the manager knows it.
abbrev pub place_of : ℕ → LayerManager → Option Vector2D
place_of id m = pos_of (find_layer id m.layers)

abbrev pub shift : (Vector2D → Vector2D) → Option Vector2D → Option Vector2D
shift f none = none
shift f (some p) = some (f p)

pub find_layer-id :
    (id : ℕ) (layers : List Layer) (l : Layer) → find_layer id layers ≡ some l → l.id ≡ id
unfolding find_layer
find_layer-id id [] l e = absurd (ground arith)
find_layer-id id (k ∷ ls) l e = elim (Bool-cases (k.id == id)) [
  | inl here ↦ ground arith
  | inr there ↦ find_layer-id id ls l (ground arith)
]

abbrev moved_to : (Vector2D → Vector2D) → Layer → Layer
moved_to f k = record k { pos = f k.pos }

places-moved :
    (id j : ℕ) (f : Vector2D → Vector2D) (layers : List Layer)
    → pos_of (find_layer id (change_layer j (moved_to f) layers))
      ≡ (if j == id then shift f (pos_of (find_layer id layers)) else pos_of (find_layer id layers))
unfolding find_layer change_layer
places-moved id j f [] = ground arith
places-moved id j f (k ∷ ls) = elim (Bool-cases (k.id == j)) [
  | inl here ↦ ground arith
  | inr there ↦ ground (arith, places-moved id j f ls)
]

places-painted :
    (paint : Bool → Window → Window) (id j : ℕ) (active : Bool) (layers : List Layer)
    → pos_of (find_layer id (change_layer j (paint_layer paint active) layers))
      ≡ pos_of (find_layer id layers)
unfolding find_layer change_layer
places-painted paint id j active [] = refl
places-painted paint id j active (k ∷ ls) = elim (Bool-cases (k.id == j)) [
  | inl here ↦ ground arith
  | inr there ↦ ground (arith, places-painted paint id j active ls)
]

up_down-layers : (m : LayerManager) (id : ℕ) (h : ℤ) → (up_down m id h).layers ≡ m.layers
unfolding up_down hide
up_down-layers m id (ℤ.negsuc h) = ground arith
up_down-layers m id (ℤ.pos h) = ground arith

bring_up-layers : (mouse id : ℕ) (m : LayerManager) → (bring_up mouse id m).layers ≡ m.layers
unfolding bring_up
bring_up-layers mouse id m =
    let low = up_down m id (ℤ.pos 0) in
    up_down-layers low id (get_height low mouse -ℤ ℤ.pos 1) ∙ up_down-layers m id (ℤ.pos 0)

module _ (unset : Rectangle) where
  -- A move moves one layer.
  pub move_by-place :
      (m : LayerManager) (j : ℕ) (f : Vector2D → Vector2D) (id : ℕ)
      → place_of id (move_by unset m j f)
        ≡ (if j == id then shift f (place_of id m) else place_of id m)
  unfolding move_by draw_id draw_id_area draw_area
  move_by-place m j f id = elim (Option-cases (find_layer j m.layers)) [
    | inl gone ↦ rw (move_by, gone) (ground arith)
    | inr (l, found) ↦ elim (Option-cases l.window) [
      | inl bare ↦ rw (move_by, found, bare) (places-moved id j f m.layers)
      | inr (w, dressed) ↦ rw (move_by, found, dressed) (places-moved id j f m.layers)
    ]
  ]

module _ {C : Type 0} (unset : Rectangle) (paint : Bool → Window → Window) where
  send-place :
      (d : Desktop C) (layer_id value id : ℕ)
      → place_of id (send_window_active_message unset paint d layer_id value).1.manager
        ≡ place_of id d.manager
  unfolding send_window_active_message
  send-place d layer_id value id = elim (Option-cases (task_of layer_id d.layer_task_map)) [
    | inl e ↦ rw (send_window_active_message, e) refl
    | inr (t, e) ↦ rw (send_window_active_message, e) refl
  ]

  deactivate_old-place :
      (d : Desktop C) (id : ℕ)
      → place_of id (deactivate_old unset paint d).manager ≡ place_of id d.manager
  unfolding deactivate_old with_manager draw_id draw_id_area
  deactivate_old-place d id = elim (Bool-cases (ltb 0 d.active_layer)) [
    | inl some_layer ↦
        let old = d.active_layer in
        rw (deactivate_old, some_layer)
          (send-place
              (with_manager unset paint (λ m. draw_id unset (repaint paint old false m) old) d) old
              0 id
            ∙ places-painted paint id old false d.manager.layers)
    | inr none_active ↦ rw (deactivate_old, none_active) refl
  ]

  activate_new-place :
      (d : Desktop C) (j id : ℕ)
      → place_of id (activate_new unset paint d j).manager ≡ place_of id d.manager
  unfolding activate_new with_manager draw_id draw_id_area
  activate_new-place d j id = elim (Bool-cases (ltb 0 j)) [
    | inl some_layer ↦
        rw (activate_new, some_layer)
          (send-place
              (with_manager unset paint
                (λ m. draw_id unset (bring_up d.mouse_layer j (repaint paint j true m)) j)
                (record d { active_layer = j }))
              j 1 id
            ∙ ap (λ (ls : List Layer). pos_of (find_layer id ls))
                (bring_up-layers d.mouse_layer j (repaint paint j true d.manager))
            ∙ places-painted paint id j true d.manager.layers)
    | inr nothing ↦ rw (activate_new, nothing) refl
  ]

  -- `Activate` moves no layer.
  pub activate-place :
      (d : Desktop C) (j id : ℕ)
      → place_of id (activate unset paint d j).manager ≡ place_of id d.manager
  unfolding activate
  activate-place d j id = elim (Bool-cases (d.active_layer == j)) [
    | inl same ↦ rw (activate, same) refl
    | inr other ↦
        rw (activate, other)
          (activate_new-place (deactivate_old unset paint d) j id ∙ deactivate_old-place d id)
  ]
