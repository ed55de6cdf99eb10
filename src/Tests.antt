-- ===== src/Tests.antt =====
-- Runs of the theorems at concrete inputs, with the data that they share.
mod Flags
mod Queue
mod Keys
mod Output
mod Rules
use karabiner_cn.Base.{ℕ, ◌-◌, ◌==◌, Bool, true, false, List, [], ◌∷◌, map, Option, none, some}
use karabiner_cn.Base.Int.{ℤ, pos}
use karabiner_cn.EventInputQueue
use karabiner_cn.EventInputQueue.{DeviceIdentifier, EnqueuedFrom, from_hardware}
use karabiner_cn.EventInputQueue.Bouncing.{Settings}
use karabiner_cn.EventType
use karabiner_cn.FlagStatus.Counter.{Item}
use karabiner_cn.KeyCodeModifierFlagPairs.{Pair, modifier_flags}
use karabiner_cn.KeyCodeModifierFlagPairs
use karabiner_cn.ModifierFlag
use karabiner_cn.Params.{ParamsBase, KeyboardEvent, keyboard}
use karabiner_cn.StatusMessage
use karabiner_cn.StatusMessage.{Board}

abbrev pub pairs : List Pair
pairs = KeyCodeModifierFlagPairs.clear_virtual_modifiers

abbrev pub board : Board
board = record {
  messages = λ i. [];
  previous_message = b'c' ∷ [];
  notifications = [];
  names = StatusMessage.clear_virtual_modifiers;
}

abbrev counted : ℕ → ℕ → ℕ → Item
counted m n locked = record {
  flag = m;
  count = pos n;
  temporary_count = pos 0;
  lock_count = pos locked;
  negative_lock_count = pos 0;
  lazy_count = pos 0;
  lazy_enabled = false;
  sticky_count = pos 0;
}

-- Shift is down and caps lock is locked.
abbrev pub shift_items : List Item
shift_items = counted ModifierFlag.shift_l 1 0 ∷ counted ModifierFlag.capslock 0 1 ∷ []

-- Neither is on.
abbrev pub no_items : List Item
no_items = counted ModifierFlag.shift_l 0 0 ∷ counted ModifierFlag.capslock 0 0 ∷ []

-- All modifiers of the table are off.
abbrev pub off_items : List Item
off_items = map (λ m. counted m 0 0) (modifier_flags pairs)

-- A key event; 49 is the space key and 17 the key T.
abbrev pub key_event : ℕ → Bool → ParamsBase
key_event k is_down = keyboard (record {
  event_type = EventType.down;
  flags = 0;
  key = k;
  char_code = 0;
  char_set = 0;
  orig_char_code = 0;
  orig_char_set = 0;
  keyboard_type = 40;
  repeat = false;
  ex_iskeydown = is_down;
})

abbrev pub queue_item : ℕ → Bool → ℕ → EventInputQueue.Item
queue_item k is_down began = record {
  params = key_event k is_down;
  retain_flag_status_temporary_count = false;
  device_identifier = record { vendor = 1; product = 2; location = 3 };
  device_weak_pointer = (7, 1);
  ic = began;
  is_simultaneous_key_presses_target = true;
  enqueued_from = from_hardware;
}

-- The rule of the space key.
abbrev pub is_space : ParamsBase → Bool
is_space (keyboard p) = p.key == 49
is_space p = false

abbrev pub settings : Settings
settings = record {
  getmillisec = λ began. 100 - began;
  threshold_for_keyboard = 20;
  threshold_for_mice = 20;
}
