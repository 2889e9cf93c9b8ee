-- ===== src/Mouse/Messages.antt =====
-- What the messages of the mouse change, and that none of them reaches a task.
use mikan_os.Prelude.{
  ℕ, zero, suc, ◌≡◌, refl, sym, subst, ap, ◌&&◌, none, some, ◌==◌, bit_xor, if◌then◌else◌, arith,
  Bool-cases, inl, inr, if_both,
}
use mikan_os.Prelude.Int.{ℤ}
use mikan_os.Message.{MessageArg}
use mikan_os.Error.{Code}
use mikan_os.Task.{TaskManager, find}
use mikan_os.Task.Deliver.{send_message-unknown}
use mikan_os.Graphics.{Vector2D, ◌-v◌}
use mikan_os.Window.{same_int}
use mikan_os.Layer.{Layer}
use mikan_os.Layer.Active.{Desktop}
use mikan_os.Mouse.{
  button_bit, find_active_layer_task, tell, send_buttons, mouse_messages, send_mouse_message,
  send_close_message,
}

module _ {C : Type 0} (P : Desktop C → Type 0) where
  send_buttons-keeps :
      (n i : ℕ) (d : Desktop C) (task_id : ℕ) (relpos : Vector2D) (buttons diff : ℕ)
      → ((e : Desktop C) (arg : MessageArg) → P e → P (tell e task_id arg))
      → P d
      → P (send_buttons n i d task_id relpos buttons diff)
  unfolding send_buttons
  send_buttons-keeps zero i d task_id relpos buttons diff closed p = p
  send_buttons-keeps (suc n) i d task_id relpos buttons diff closed p =
      send_buttons-keeps n (suc i) _ task_id relpos buttons diff closed
        (if_both P (button_bit diff i == 1) (closed d _ p) p)

  mouse_messages-keeps :
      (d : Desktop C) (task_id : ℕ) (relpos posdiff : Vector2D) (buttons previous : ℕ)
      → ((e : Desktop C) (arg : MessageArg) → P e → P (tell e task_id arg))
      → P d
      → P (mouse_messages d task_id relpos posdiff buttons previous)
  unfolding mouse_messages
  mouse_messages-keeps d task_id relpos posdiff buttons previous closed p =
      let still = same_int posdiff.x (ℤ.pos 0) && same_int posdiff.y (ℤ.pos 0) in
      let moved = if_both P still p (closed d _ p) in
      if_both P (previous == buttons) moved
        (send_buttons-keeps 8 0 _ task_id relpos buttons (bit_xor previous buttons) closed moved)

  -- The messages of `SendMouseMessage` all go to the task number 0.
  pub send_mouse_message-keeps :
      (d : Desktop C) (newpos posdiff : Vector2D) (buttons previous : ℕ)
      → ((e : Desktop C) (arg : MessageArg) → P e → P (tell e 0 arg))
      → P d
      → P (send_mouse_message d newpos posdiff buttons previous)
  unfolding send_mouse_message
  send_mouse_message-keeps d newpos posdiff buttons previous closed p =
      let (layer, task_id) = find_active_layer_task d in
      let sent : Layer → Desktop C =
        λ l. mouse_messages d task_id (newpos -v l.pos) posdiff buttons previous in
      elim layer as (λ o. P (elim o [ none ↦ d | some l ↦ if task_id == 0 then sent l else d ])) [
        | none ↦ p
        | some l ↦ elim (Bool-cases (task_id == 0)) [
          | inl zeroth ↦
              let e : 0 ≡ task_id = ground arith in
              if_both P (task_id == 0)
                (mouse_messages-keeps d task_id (newpos -v l.pos) posdiff buttons previous
                  (subst (λ t. (c : Desktop C) (arg : MessageArg) → P c → P (tell c t arg)) e
                    closed)
                  p)
                p
          | inr task ↦ subst (λ b. P (if b then sent l else d)) (sym task) p
        ]
      ]

module _ {C : Type 0} where
  pub send_mouse_message-manager :
      (d : Desktop C) (newpos posdiff : Vector2D) (buttons previous : ℕ)
      → (send_mouse_message d newpos posdiff buttons previous).manager ≡ d.manager
  unfolding tell
  send_mouse_message-manager d newpos posdiff buttons previous =
      send_mouse_message-keeps (λ e. e.manager ≡ d.manager) d newpos posdiff buttons previous
        (λ e arg p. p) refl

  pub send_close_message-manager : (d : Desktop C) → (send_close_message d).manager ≡ d.manager
  unfolding send_close_message tell
  send_close_message-manager d = ground arith

  tell-nobody : (d : Desktop C) (arg : MessageArg) → find 0 d.tasks.tasks ≡ none → tell d 0 arg ≡ d
  unfolding tell
  tell-nobody d arg nobody =
      ap (λ (r : Code × TaskManager C). record d { tasks = r.1 })
        (send_message-unknown d.tasks 0 (record { src_task = 0; arg = arg }) nobody)

  -- Where no task has the number 0, as `NewTask` counts from 1, SendMouseMessage sends nothing,
  -- whatever the mouse does.
  pub send_mouse_message-nothing :
      (d : Desktop C) (newpos posdiff : Vector2D) (buttons previous : ℕ)
      → find 0 d.tasks.tasks ≡ none
      → send_mouse_message d newpos posdiff buttons previous ≡ d
  send_mouse_message-nothing d newpos posdiff buttons previous nobody =
      send_mouse_message-keeps (λ e. e ≡ d) d newpos posdiff buttons previous
        (λ e arg p. subst (λ c. tell c 0 arg ≡ d) (sym p) (tell-nobody d arg nobody)) refl
