-- ===== src/EventOutputQueue/FireModifiers.antt =====
-- `EventOutputQueue::FireModifiers` of core/kext/Classes/EventOutputQueue.cpp: the modifiers on the
-- output are brought from the last flags to the flags that are wanted, one event for each.
pub mod Loop
pub mod Difference
pub mod Numpad
pub mod Fires
use karabiner_cn.Base.{
  ℕ, Bool, true, false, not, ◌&&◌, ◌||◌, List, [], ◌∷◌, ◌++◌, Option, none, some, ◌==◌,
  if◌then◌else◌, map,
}
use karabiner_cn.EventType
use karabiner_cn.Flags
use karabiner_cn.FlagStatus.Counter
use karabiner_cn.KeyCode
use karabiner_cn.KeyCodeModifierFlagPairs.{Pair, KeyCodeType, get_key_code, modifier_flags}
use karabiner_cn.ModifierFlag
use karabiner_cn.ModifierFlag.{get_raw_bits}
use karabiner_cn.Params.{keyboard, make_keyboard_event}
use karabiner_cn.EventOutputQueue.{
  State, World, PhysicalEventType, physical_down, physical_up, push,
}

-- The modifiers that the loops skip: those without a key code, and virtual ones.
unfoldable pub is_skipped : List Pair → ℕ → Bool
unfolding get_key_code get_raw_bits
is_skipped pairs flag =
    get_key_code pairs flag KeyCodeType.keycode == KeyCode.vk_none || get_raw_bits flag == 0

-- An event of a modifier, with the flags behind it, which become the last flags.
unfoldable pub send_modifier : World → ℕ → ℕ → ℕ → ℕ → State → State
unfolding push make_keyboard_event get_key_code
send_modifier w autogen_id keyboard_type flag flags s =
    push w
      (keyboard (
        make_keyboard_event w.pairs EventType.modify flags
          (get_key_code w.pairs flag KeyCodeType.keycode) keyboard_type false))
      autogen_id (record s { last_flags = flags })

-- The shape of the two loops over the modifiers of the global `FlagStatus`: a modifier is passed
-- over, by the last flags, or it is sent with the last flags changed.
unfoldable pub send_loop : World → ℕ → ℕ → (ℕ → ℕ → Bool) → (ℕ → ℕ → ℕ) → List ℕ → State → State
unfolding send_modifier
send_loop w autogen_id keyboard_type passes change [] s = s
send_loop w autogen_id keyboard_type passes change (flag ∷ rest) s =
    send_loop w autogen_id keyboard_type passes change rest (
      if passes s.last_flags flag
      then s
      else send_modifier w autogen_id keyboard_type flag (change s.last_flags flag) s)

-- The loop on key up events.
abbrev pub passes_up : List Pair → ℕ → ℕ → ℕ → Bool
passes_up pairs to_flags last_flags flag =
    is_skipped pairs flag || not (Flags.is_on last_flags flag) || Flags.is_on to_flags flag

unfoldable pub key_ups : World → ℕ → ℕ → ℕ → List ℕ → State → State
unfolding send_loop is_skipped Flags.is_on
key_ups w autogen_id to_flags keyboard_type flags s =
    send_loop w autogen_id keyboard_type (passes_up w.pairs to_flags)
      (Flags.remove (modifier_flags w.pairs)) flags s

-- The loop on key down events.
abbrev pub passes_down : List Pair → ℕ → ℕ → ℕ → Bool
passes_down pairs to_flags last_flags flag =
    is_skipped pairs flag || not (Flags.is_on to_flags flag) || Flags.is_on last_flags flag

unfoldable pub key_downs : World → ℕ → ℕ → ℕ → List ℕ → State → State
unfolding send_loop is_skipped Flags.is_on
key_downs w autogen_id to_flags keyboard_type flags s =
    send_loop w autogen_id keyboard_type (passes_down w.pairs to_flags) Flags.add flags s

-- The modifiers in the order of the items of the global `FlagStatus`.
abbrev pub item_flags : List Counter.Item → List ℕ
item_flags = map λ x. x.flag

-- The two loops.
unfoldable pub send_all : World → ℕ → ℕ → ℕ → State → State
unfolding key_ups key_downs
send_all w autogen_id to_flags keyboard_type s =
    let s' = key_ups w autogen_id to_flags keyboard_type (item_flags s.flag_status) s in
    key_downs w autogen_id to_flags keyboard_type (item_flags s'.flag_status) s'

-- The handling of the numpad flag before the loops and behind them.
unfoldable pub remove_numpad : World → ℕ → State → State
unfolding Flags.is_on Flags.remove
remove_numpad w to_flags s =
    if not (Flags.is_on to_flags ModifierFlag.numpad)
    then record s {
      last_flags = Flags.remove (modifier_flags w.pairs) s.last_flags ModifierFlag.numpad;
    }
    else s

unfoldable pub add_numpad : ℕ → State → State
unfolding Flags.is_on Flags.add
add_numpad to_flags s =
    if Flags.is_on to_flags ModifierFlag.numpad
    then record s { last_flags = Flags.add s.last_flags ModifierFlag.numpad }
    else s

unfoldable pub send_difference : World → ℕ → ℕ → ℕ → State → State
unfolding remove_numpad send_all add_numpad
send_difference w autogen_id to_flags keyboard_type s =
    add_numpad to_flags (send_all w autogen_id to_flags keyboard_type (remove_numpad w to_flags s))

-- `fire`.
unfoldable pub fire : World → ℕ → PhysicalEventType → ℕ → ℕ → State → State
unfolding send_difference
fire w autogen_id physical_down to_flags keyboard_type s =
    if s.last_flags == to_flags
    then s
    else send_difference w autogen_id to_flags keyboard_type
        (record s { is_ignore_physical_up_event = false })
fire w autogen_id physical_up to_flags keyboard_type s =
    if s.last_flags == to_flags
    then s
    else if s.is_ignore_physical_up_event
    then s
    else send_difference w autogen_id to_flags keyboard_type s
