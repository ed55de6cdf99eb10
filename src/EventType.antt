-- ===== src/EventType.antt =====
-- `EventType` of core/kext/KeyCode.hpp and KeyCode.cpp, with the values of
-- src/bridge/generator/keycode/data/EventType.data.
use karabiner_cn.Base.{ℕ, List, Bool, true, false, ◌==◌, if◌then◌else◌}
use karabiner_cn.Flags
use karabiner_cn.KeyCodeModifierFlagPairs.{Pair, KeyCodeType, get_modifier_flag}

abbrev pub down : ℕ
down = 10

abbrev pub up : ℕ
up = 11

abbrev pub modify : ℕ
modify = 12

-- `isKeyDownOrModifierDown`. `KeyCode::getModifierFlag` looks the key up in the table of modifiers.
unfoldable pub is_key_down_or_modifier_down : List Pair → ℕ → ℕ → ℕ → Bool
unfolding Flags.is_on get_modifier_flag
is_key_down_or_modifier_down pairs event_type key flags =
    if event_type == down
    then true
    else if event_type == modify
    then Flags.is_on flags (get_modifier_flag pairs key KeyCodeType.keycode)
    else false
