-- ===== src/Message.antt =====
-- kernel/message.hpp: the messages that tasks receive. The union `arg` and its tag `type` are one data
-- type; signed fields are kept as their bit patterns, since messages are only moved.
use mikan_os.Prelude.{ℕ, List}

pub data LayerOperation : Type 0 where
  move move_relative draw draw_area : LayerOperation

pub data MessageArg : Type 0 where
  interrupt_xhci : MessageArg
  timer_timeout : (timeout value : ℕ) → MessageArg
  key_push : (modifier keycode ascii press : ℕ) → MessageArg
  layer : LayerOperation → (layer_id x y w h : ℕ) → MessageArg
  layer_finish : MessageArg
  mouse_move : (x y dx dy buttons : ℕ) → MessageArg
  mouse_button : (x y press button : ℕ) → MessageArg
  window_active : (activate : ℕ) → MessageArg
  pipe : List ℕ → (len : ℕ) → MessageArg
  window_close : (layer_id : ℕ) → MessageArg

pub record Message : Type 0 where
  pub src_task : ℕ
  pub arg : MessageArg
