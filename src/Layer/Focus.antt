-- ===== src/Layer/Focus.antt =====
-- The order of the layers after ActiveLayer::Activate.
use mikan_os.Prelude.{
  ℕ, suc, ◌<◌, ◌≡◌, ◌≢◌, refl, ◌∙◌, ap, ap₂, sym, List, [], ◌∷◌, Bool, true, false, some, ltb, ◌==◌,
  length, min, arith, Option-cases, Bool-cases, inl, inr, ==_no, lt→ltb,
}
use mikan_os.Prelude.Int.{ℤ, ◌-ℤ◌}
use mikan_os.Graphics.{Rectangle}
use mikan_os.Window.{Window}
use mikan_os.Layer.{
  Layer, LayerManager, find_layer, change_layer, erase_id, insert_at, height_of, get_height,
  up_down, draw_id, draw_id_area,
}
use mikan_os.Layer.Stack.{
  IsSingle, insert_at-height, insert_at-erase, insert_at-other, height_of-lt, height_ℤ, raise_lem,
  up_down-known,
}
use mikan_os.Layer.Active.{
  Desktop, task_of, paint_layer, repaint, bring_up, send_window_active_message, with_manager,
  deactivate_old, activate_new, activate,
}

find_layer-change_layer :
    (id j : ℕ) (f : Layer → Layer) (layers : List Layer) (l : Layer)
    → ((k : Layer) → (f k).id ≡ k.id)
    → find_layer id layers ≡ some l
    → (l' : Layer) × (find_layer id (change_layer j f layers) ≡ some l')
unfolding find_layer change_layer
find_layer-change_layer id j f [] l same e = absurd (ground arith)
find_layer-change_layer id j f (k ∷ ls) l same e = elim (Bool-cases (k.id == j)) [
  | inl here ↦ elim (Bool-cases (k.id == id)) [
    | inl mine ↦ (f k, rw (here, find_layer, same k, mine) refl)
    | inr other ↦ (l, ground (arith, same k))
  ]
  | inr there ↦ elim (Bool-cases (k.id == id)) [
    | inl mine ↦ (k, rw (there, find_layer, mine) refl)
    | inr other ↦
        let (l', found) = find_layer-change_layer id j f ls l same (ground arith) in
        (l', ground arith)
  ]
]

pos_pred : (k : ℕ) → ℤ.pos (suc k) -ℤ ℤ.pos 1 ≡ ℤ.pos k
unfolding ◌-ℤ◌
pos_pred k = ground arith

-- A known layer that stands once at most goes directly below the mouse, which is at height `k` of the
-- others.
bring_up-stack :
    (mouse_layer id k : ℕ) (m : LayerManager) (l : Layer)
    → find_layer id m.layers ≡ some l
    → IsSingle id m.layer_stack
    → mouse_layer ≢ id
    → height_of mouse_layer (erase_id id m.layer_stack) ≡ some k
    → bring_up mouse_layer id m
      ≡ record m { layer_stack = insert_at k id (erase_id id m.layer_stack) }
unfolding bring_up
bring_up-stack mouse_layer id k m l found single other above =
    let others = erase_id id m.layer_stack in
    let low = record m { layer_stack = insert_at 0 id others } in
    let e : up_down m id (ℤ.pos 0) ≡ low =
      up_down-known m id 0 l found
      ∙ ap (λ (s : List ℕ). record m { layer_stack = s })
          (raise_lem id 0 m.layer_stack single
            ∙ ap (λ (n : ℕ). insert_at n id others) (omega arith)) in
    let at_mouse : height_of mouse_layer (insert_at 0 id others) ≡ some (suc k) =
      insert_at-other 0 id mouse_layer others other ∙ rw above (ground arith) in
    let erased : erase_id id (insert_at 0 id others) ≡ others =
      insert_at-erase 0 id others single in
    let height : get_height low mouse_layer ≡ ℤ.pos (suc k) = ap (height_ℤ) at_mouse in
    let bound = height_of-lt mouse_layer k others above in
    let same : min k (length others) ≡ k = omega (arith, bound) in
    rw
      (
        bring_up,
        e,
        height,
        pos_pred k,
        up_down-known low id k l found,
        raise_lem id k (insert_at 0 id others) (rw (erased) single),
        erased,
        same,
      )
      refl

module _ {C : Type 0} (unset : Rectangle) (paint : Bool → Window → Window) where
  -- Messages leave the layers alone.
  send-manager :
      (d : Desktop C) (layer_id value : ℕ)
      → let d' = (send_window_active_message unset paint d layer_id value).1 in
        (d'.manager ≡ d.manager)
        × (d'.mouse_layer ≡ d.mouse_layer)
        × (d'.active_layer ≡ d.active_layer)
  unfolding send_window_active_message
  send-manager d layer_id value = elim (Option-cases (task_of layer_id d.layer_task_map)) [
    | inl e ↦ rw (send_window_active_message, e) (refl, refl, refl)
    | inr (t, e) ↦ rw (send_window_active_message, e) (refl, refl, refl)
  ]

  -- The layer that loses the focus keeps its place.
  deactivate_old-stack :
      (d : Desktop C) (id : ℕ) (l : Layer)
      → find_layer id d.manager.layers ≡ some l
      → let d' = deactivate_old unset paint d in
        (d'.manager.layer_stack ≡ d.manager.layer_stack)
        × (d'.mouse_layer ≡ d.mouse_layer)
        × (l' : Layer) × (find_layer id d'.manager.layers ≡ some l')
  unfolding deactivate_old with_manager draw_id draw_id_area
  deactivate_old-stack d id l found = elim (Bool-cases (ltb 0 d.active_layer)) [
    | inl some_layer ↦
        let old = d.active_layer in
        let drawn =
          with_manager unset paint (λ m. draw_id unset (repaint paint old false m) old) d in
        let (same, mouse, active) = send-manager drawn old 0 in
        let (l', found') =
          find_layer-change_layer id old (paint_layer paint false) d.manager.layers l (λ k. refl)
            found in
        rw (deactivate_old, some_layer)
          (
            ap (λ (m : LayerManager). m.layer_stack) same,
            mouse,
            l',
            ap (λ (m : LayerManager). find_layer id m.layers) same ∙ found',
          )
    | inr none_active ↦ rw (deactivate_old, none_active) (refl, refl, l, found)
  ]

  activate_new-stack :
      (d : Desktop C) (id k : ℕ) (l : Layer)
      → 0 < id
      → find_layer id d.manager.layers ≡ some l
      → IsSingle id d.manager.layer_stack
      → d.mouse_layer ≢ id
      → height_of d.mouse_layer (erase_id id d.manager.layer_stack) ≡ some k
      → let d' = activate_new unset paint d id in
        (d'.manager.layer_stack ≡ insert_at k id (erase_id id d.manager.layer_stack))
        × (d'.active_layer ≡ id)
  unfolding activate_new with_manager draw_id draw_id_area
  activate_new-stack d id k l positive found single other above =
      let painted = repaint paint id true d.manager in
      let (l', found') =
        find_layer-change_layer id id (paint_layer paint true) d.manager.layers l (λ n. refl)
          found in
      let up = bring_up-stack d.mouse_layer id k painted l' found' single other above in
      let drawn =
        with_manager unset paint
          (λ m. draw_id unset (bring_up d.mouse_layer id (repaint paint id true m)) id)
          (record d { active_layer = id }) in
      let (same, mouse, active) = send-manager drawn id 1 in
      rw (activate_new, lt→ltb 0 id positive)
        (
          ap (λ (m : LayerManager). m.layer_stack) same
              ∙ ap (λ (m : LayerManager). m.layer_stack) up,
          active,
        )

  -- `Activate` of a layer that the manager knows, that is not active and that stands once at most in
  -- the stack, where the mouse layer stands in it too, makes it the active one and puts it directly
  -- below the mouse layer; the order of the other layers stays.
  pub activate-below_mouse :
      (d : Desktop C) (id k : ℕ) (l : Layer)
      → 0 < id
      → d.active_layer ≢ id
      → find_layer id d.manager.layers ≡ some l
      → IsSingle id d.manager.layer_stack
      → d.mouse_layer ≢ id
      → height_of d.mouse_layer (erase_id id d.manager.layer_stack) ≡ some k
      → let stack = (activate unset paint d id).manager.layer_stack in
        ((activate unset paint d id).active_layer ≡ id)
        × (height_of id stack ≡ some k)
        × (height_of d.mouse_layer stack ≡ some (suc k))
        × (erase_id id stack ≡ erase_id id d.manager.layer_stack)
  unfolding activate
  activate-below_mouse d id k l positive inactive found single other above =
      let others = erase_id id d.manager.layer_stack in
      let old = deactivate_old unset paint d in
      let (same, mouse, l', found') = deactivate_old-stack d id l found in
      let others_same : erase_id id old.manager.layer_stack ≡ others = ap (erase_id id) same in
      let (stack, active) =
        activate_new-stack old id k l' positive found' (ap (height_of id) others_same ∙ single)
          (λ e. other (sym mouse ∙ e)) (ap₂ height_of mouse others_same ∙ above) in
      let stack' = stack ∙ ap (insert_at k id) others_same in
      let within : min k (length others) ≡ k =
        omega (arith, height_of-lt d.mouse_layer k others above) in
      rw (==_no d.active_layer id inactive) (
        active,
        ap (height_of id) stack' ∙ insert_at-height k id others single ∙ ap some within,
        ap (height_of d.mouse_layer) stack'
            ∙ insert_at-other k id d.mouse_layer others other
            ∙ rw above (ground arith),
        ap (erase_id id) stack' ∙ insert_at-erase k id others single,
      )
