-- ===== src/EventOutputQueue.antt =====
-- `EventOutputQueue` of core/kext/Classes/EventOutputQueue.hpp and EventOutputQueue.cpp: the queue of
-- the events that go out, and the `Fire` classes that put them there. `PressDownKeys` of
-- core/kext/Classes/PressDownKeys.cpp is the list of the keys that are down on the output.
pub mod FireModifiers
pub mod FireKey
pub mod FirePointer
pub mod Timer
use karabiner_cn.Base.{
  ℕ, Bool, true, false, not, ◌&&◌, List, [], ◌∷◌, ◌++◌, Option, none, some, ◌==◌, if◌then◌else◌,
}
use karabiner_cn.EventType
use karabiner_cn.FlagStatus
use karabiner_cn.FlagStatus.Counter
use karabiner_cn.KeyCode
use karabiner_cn.KeyCodeModifierFlagPairs.{Pair}
use karabiner_cn.LastKeys.{LastSentEvent, update_sent}
use karabiner_cn.Params.{
  ParamsBase, keyboard, update_event_flags, keyboard_special, relative_pointer, scroll_wheel, wait,
  empty_instance, make_keyboard_event,
}
use karabiner_cn.StatusMessage.{Board}

-- `PhysicalEventType` of core/kext/Types.hpp.
pub data PhysicalEventType : Type 0 where
  physical_down physical_up : PhysicalEventType

-- `EventOutputQueue::Item`.
pub record Item : Type 0 where
  pub params : ParamsBase
  pub autogen_id : ℕ
  pub serial_number : ℕ
  pub canceled : Bool

-- The static members of `EventOutputQueue` and of the classes in it, `PressDownKeys::list_`, and
-- what `push` changes elsewhere: the last sent event and the global `FlagStatus`.
pub record State : Type 0 where
  pub queue : List Item
  pub fire_timer : Option ℕ
  pub previous_buttons : ℕ
  pub last_flags : ℕ
  pub is_ignore_physical_up_event : Bool
  pub last_buttons : ℕ
  pub press_down_keys : List (ℕ × ℕ)
  pub last_sent : LastSentEvent
  pub flag_status : List Counter.Item
  pub board : Board

-- What the functions read: the clock, `EventInputQueue::currentSerialNumber` and the table of the
-- modifiers.
pub record World : Type 0 where
  pub now : ℕ
  pub current_serial_number : ℕ
  pub pairs : List Pair

-- `setTimeoutMS(ms, false)`: a timer that is active stays as it is.
abbrev pub set_timeout_if_inactive : ℕ → Option ℕ → Option ℕ
set_timeout_if_inactive ms none = some ms
set_timeout_if_inactive ms (some t) = some t

-- `PUSH_TO_OUTPUTQUEUE`.
unfoldable pub push_to_output_queue : World → ParamsBase → ℕ → State → State
unfolding update_sent
push_to_output_queue w p autogen_id s = record s {
  last_sent = update_sent w.now p s.last_sent;
  queue =
      s.queue
      ++ (record {
        params = p;
        autogen_id = autogen_id;
        serial_number = w.current_serial_number;
        canceled = false;
      }
          ∷ []);
  fire_timer = set_timeout_if_inactive 0 s.fire_timer;
}

-- `sticky_clear` of the global `FlagStatus`.
unfoldable pub sticky_clear : State → State
unfolding FlagStatus.sticky_clear
sticky_clear s =
    let r = FlagStatus.sticky_clear s.flag_status s.board in
    record s { flag_status = r.0; board = r.1 }

-- The events behind which the five functions `push` clear the sticky modifiers.
unfoldable pub clears_sticky : ParamsBase → Bool
clears_sticky (keyboard p) = p.event_type == EventType.down
clears_sticky (keyboard_special p) = p.ex_iskeydown
clears_sticky (relative_pointer p) = not (p.buttons == 0)
clears_sticky (scroll_wheel p) = true
clears_sticky p = false

-- `push`.
unfoldable pub push : World → ParamsBase → ℕ → State → State
unfolding push_to_output_queue sticky_clear clears_sticky
push w p autogen_id s =
    let s' = push_to_output_queue w p autogen_id s in
    if clears_sticky p then sticky_clear s' else s'

-- `PressDownKeys::add` and `PressDownKeys::remove`.
unfoldable pub add_press_down_key : ℕ → ℕ → State → State
add_press_down_key key keyboard_type s =
    if key == KeyCode.vk_none
    then s
    else record s { press_down_keys = s.press_down_keys ++ ((key, keyboard_type) ∷ []) }

unfoldable pub without : ℕ → ℕ → List (ℕ × ℕ) → List (ℕ × ℕ)
without key keyboard_type [] = []
without key keyboard_type ((k, t) ∷ ks) =
    let rest = without key keyboard_type ks in
    if k == key && t == keyboard_type then rest else (k, t) ∷ rest

unfoldable pub remove_press_down_key : ℕ → ℕ → State → State
unfolding without
remove_press_down_key key keyboard_type s = record s {
  press_down_keys = without key keyboard_type s.press_down_keys;
}

-- `AutogenId::maxValue()`.
abbrev pub autogen_id_max : ℕ
autogen_id_max = 0xffffffffffffffff

-- `PressDownKeys::clear`: an up event for each key.
unfoldable pub push_ups : World → List (ℕ × ℕ) → State → State
unfolding push make_keyboard_event
push_ups w [] s = s
push_ups w ((k, t) ∷ ks) s =
    push_ups w ks
      (push w (keyboard (make_keyboard_event w.pairs EventType.up 0 k t false)) autogen_id_max s)

unfoldable pub clear_press_down_keys : World → State → State
unfolding push_ups
clear_press_down_keys w s = record (push_ups w s.press_down_keys s) { press_down_keys = [] }
