-- ===== src/KeyboardRepeat.antt =====
-- `KeyboardRepeat` of core/kext/Classes/KeyboardRepeat.hpp and KeyboardRepeat.cpp: the keys that are
-- repeated while one is held, and the timer that repeats them. The timer is the timeout that it is
-- armed with, if it is armed; an `AutogenId` is a number.
pub mod Laws
use karabiner_cn.Base.{
  ℕ, suc, ◌+◌, ◌≤◌, ◌<◌, Bool, true, false, not, List, [], ◌∷◌, ◌++◌, Option, none, some, ◌==◌, ltb,
  is_include, if◌then◌else◌, length, map,
}
use karabiner_cn.Base.Int.{pos}
use karabiner_cn.Buttons
use karabiner_cn.EventType
use karabiner_cn.KeyCode
use karabiner_cn.KeyCodeModifierFlagPairs.{Pair}
use karabiner_cn.Params.{
  ParamsBase, KeyboardEvent, KeyboardSpecialEvent, keyboard, keyboard_special, relative_pointer,
  make_keyboard_event, make_special_event,
}

-- `ConsumerKeyCode::VK_NONE` of src/bridge/generator/keycode/data/ConsumerKeyCode.data.
abbrev pub consumer_vk_none : ℕ
consumer_vk_none = 0x10000002

-- `ConsumerKeyCode::isRepeatable`, with the values of the same file.
unfoldable pub is_repeatable : ℕ → Bool
is_repeatable key = is_include (0x3 ∷ 0x2 ∷ 0x16 ∷ 0x15 ∷ 0x14 ∷ 0x13 ∷ 0x1 ∷ 0x0 ∷ []) key

abbrev pub max_keyboardrepeatid : ℕ
max_keyboardrepeatid = 10000

pub record State : Type 0 where
  pub queue : List ParamsBase
  pub timer : Option ℕ
  pub id : ℕ
  pub key_repeat : ℕ
  pub autogen_id : ℕ

-- `succID`.
unfoldable pub succ_id : State → State
succ_id s = record s { id = if ltb max_keyboardrepeatid (s.id + 1) then 0 else s.id + 1 }

unfoldable pub cancel : State → State
unfolding succ_id
cancel s = succ_id (record s { queue = []; timer = none })

-- The three functions `primitive_add`.
unfoldable pub primitive_add_key : List Pair → ℕ → ℕ → ℕ → ℕ → State → State
unfolding make_keyboard_event
primitive_add_key pairs event_type flags key keyboard_type s =
    if key == KeyCode.vk_none then s else record s {
      queue =
          s.queue
          ++ (keyboard (make_keyboard_event pairs event_type flags key keyboard_type true) ∷ []);
    }

unfoldable pub primitive_add_consumer : ℕ → ℕ → ℕ → State → State
unfolding make_special_event
primitive_add_consumer event_type flags key s = if key == consumer_vk_none then s else record s {
  queue = s.queue ++ (keyboard_special (make_special_event event_type flags key true) ∷ []);
}

unfoldable pub primitive_add_button : ℕ → State → State
primitive_add_button button s = record s {
  queue =
      s.queue
      ++ (relative_pointer (record {
        buttons = button;
        dx = pos 0;
        dy = pos 0;
        ex_button = Buttons.none;
        ex_isbuttondown = false;
      })
          ∷ []);
}

-- `primitive_start`: its result is the id of the state.
unfoldable pub primitive_start : ℕ → ℕ → ℕ → State → State
unfolding succ_id
primitive_start autogen_id delay_until_repeat key_repeat s =
    succ_id (record s {
      key_repeat = key_repeat;
      autogen_id = autogen_id;
      timer = some delay_until_repeat;
    })

-- The branch of `set` for a key up: it stops only the one key that repeats.
unfoldable pub set_up : ℕ → List ParamsBase → State → State
unfolding cancel
set_up key (keyboard p ∷ []) s = if key == p.key then cancel s else s
set_up key queue s = s

-- `set` for a key code.
unfoldable pub set_key : List Pair → ℕ → ℕ → ℕ → ℕ → ℕ → ℕ → ℕ → State → State
unfolding cancel set_up primitive_add_key primitive_start
set_key pairs event_type flags key keyboard_type autogen_id delay_until_repeat key_repeat s =
    if key == KeyCode.vk_none
    then s
    else if event_type == EventType.modify
    then cancel s
    else if event_type == EventType.up
    then set_up key s.queue s
    else if event_type == EventType.down
    then primitive_start autogen_id delay_until_repeat key_repeat
        (primitive_add_key pairs event_type flags key keyboard_type (cancel s))
    else cancel s

-- `set` for a consumer key code.
unfoldable pub set_consumer : ℕ → ℕ → ℕ → ℕ → ℕ → ℕ → State → State
unfolding cancel is_repeatable primitive_add_consumer primitive_start
set_consumer event_type flags key autogen_id delay_until_repeat key_repeat s =
    if key == consumer_vk_none
    then s
    else if event_type == EventType.up
    then cancel s
    else if event_type == EventType.down
    then (if not (is_repeatable key)
        then cancel s
        else primitive_start autogen_id delay_until_repeat key_repeat
            (primitive_add_consumer event_type flags key (cancel s)))
    else cancel s

-- What `fire_timer_callback` fires for an item of the queue: keys get a repeat flag of their own.
unfoldable pub fired_params : List Pair → Bool → ParamsBase → ParamsBase
unfolding make_keyboard_event make_special_event
fired_params pairs alone (keyboard p) =
    keyboard (make_keyboard_event pairs p.event_type p.flags p.key p.keyboard_type alone)
fired_params pairs alone (keyboard_special p) =
    keyboard_special (make_special_event p.event_type p.flags p.key alone)
fired_params pairs alone p = p

-- `fire_timer_callback`: what is fired with the autogen id of the state, and the state.
unfoldable pub fire_timer_callback : List Pair → State → List ParamsBase × State
unfolding fired_params
fire_timer_callback pairs s =
    (map (fired_params pairs (length s.queue == 1)) s.queue, record s { timer = some s.key_repeat })
