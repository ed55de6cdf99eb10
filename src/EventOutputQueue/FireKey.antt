-- ===== src/EventOutputQueue/FireKey.antt =====
-- `FireKey` of core/kext/Classes/EventOutputQueue.cpp: a key goes out, with the modifiers in front of
-- it if it goes down. `VirtualKey::handle` (core/kext/VirtualKey.cpp) is an argument: whether it took
-- the event, and the state behind it.
use karabiner_cn.Base.{ℕ, Bool, false, not, ◌&&◌, ◌||◌, List, ◌==◌, if◌then◌else◌}
use karabiner_cn.EventType
use karabiner_cn.EventType.{is_key_down_or_modifier_down}
use karabiner_cn.FnKeyHack.{Hack, reverse_normalize_key}
use karabiner_cn.KeyCode
use karabiner_cn.KeyCodeModifierFlagPairs.{KeyCodeType, get_modifier_flag}
use karabiner_cn.LastKeys.{update_sent}
use karabiner_cn.ModifierFlag
use karabiner_cn.ModifierFlag.{get_raw_bits}
use karabiner_cn.Params.{KeyboardEvent, keyboard}
use karabiner_cn.EventOutputQueue.{
  State, World, PhysicalEventType, push, add_press_down_key, remove_press_down_key,
}
use karabiner_cn.EventOutputQueue.FireModifiers.{fire}

abbrev pub VirtualKey : Type 0
VirtualKey = KeyboardEvent → ℕ → PhysicalEventType → State → Bool × State

-- `CommonData::setcurrent_lastsentevent`.
unfoldable pub set_lastsentevent : World → KeyboardEvent → State → State
unfolding update_sent
set_lastsentevent w p s = record s { last_sent = update_sent w.now (keyboard p) s.last_sent }

-- A key code of a modifier without bits of its own.
unfoldable pub is_virtual_modifier : World → ℕ → Bool
unfolding get_modifier_flag get_raw_bits
is_virtual_modifier w key =
    let flag = get_modifier_flag w.pairs key KeyCodeType.keycode in
    not (flag == ModifierFlag.zero) && get_raw_bits flag == 0

-- The modifiers in front of the key: none at a key up.
unfoldable pub fire_flags : World → KeyboardEvent → ℕ → PhysicalEventType → ℕ → State → State
unfolding fire
fire_flags w p autogen_id type flags s =
    if p.event_type == EventType.up
    then s
    else fire w autogen_id type flags p.keyboard_type
        (if p.ex_iskeydown then record s { is_ignore_physical_up_event = false } else s)

-- The keys that are down.
unfoldable pub update_press_down_keys : KeyboardEvent → ℕ → State → State
unfolding add_press_down_key remove_press_down_key
update_press_down_keys p key s =
    if p.repeat
    then s
    else if p.event_type == EventType.down
    then add_press_down_key key p.keyboard_type s
    else remove_press_down_key key p.keyboard_type s

-- The event of the key.
unfoldable pub send_key : World → KeyboardEvent → ℕ → ℕ → ℕ → State → State
unfolding push is_key_down_or_modifier_down update_press_down_keys
send_key w p autogen_id key flags s =
    if p.event_type == EventType.down || p.event_type == EventType.up
    then update_press_down_keys p key (
        push w
          (keyboard (record p {
            flags = flags;
            key = key;
            ex_iskeydown = is_key_down_or_modifier_down w.pairs p.event_type key flags;
          }))
          autogen_id s)
    else s

-- `fire` behind `VirtualKey::handle`, for the key and the flags that `reverseNormalizeKey` leaves.
unfoldable pub fire_normalized :
    World → KeyboardEvent → ℕ → PhysicalEventType → ℕ → ℕ → State → State
unfolding set_lastsentevent is_virtual_modifier fire_flags send_key
fire_normalized w p autogen_id type key flags s =
    if key == KeyCode.vk_none || key == KeyCode.vk_pseudo_key
    then s
    else if is_virtual_modifier w key
    then set_lastsentevent w p s
    else let s' = fire_flags w p autogen_id type flags s in
      send_key w p autogen_id key (if p.event_type == EventType.up then s'.last_flags else flags) s'

-- `fire`, with the array of `FNKeyHack`.
unfoldable pub fire_key :
    World
    → VirtualKey
    → KeyboardEvent
    → ℕ
    → PhysicalEventType
    → State × List Hack
    → State × List Hack
unfolding set_lastsentevent reverse_normalize_key fire_normalized
fire_key w handle p autogen_id type (s, hacks) =
    let h = handle p autogen_id type s in
    if h.0
    then (set_lastsentevent w p h.1, hacks)
    else let r = reverse_normalize_key w.pairs p.key p.flags p.event_type hacks in
      (fire_normalized w p autogen_id type r.0 r.1 h.1, r.2)
