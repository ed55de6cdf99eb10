-- ===== src/RemapFunc/DropKeyAfterRemap.antt =====
-- `DropKeyAfterRemap` of core/kext/RemapFunc/DropKeyAfterRemap.hpp and DropKeyAfterRemap.cpp: a key
-- with flags is canceled in the output queue, and with it its key up.
use karabiner_cn.Base.{ℕ, Bool, true, false, not, ◌&&◌, ◌||◌, List, ◌==◌, if◌then◌else◌, is_include}
use karabiner_cn.Bridge
use karabiner_cn.EventOutputQueue
use karabiner_cn.Flags
use karabiner_cn.ModifierFlag
use karabiner_cn.Params.{ParamsBase, KeyboardEvent, keyboard}
use karabiner_cn.RemapFunc.{register_serial_number}

pub record State : Type 0 where
  pub target_serial_numbers : List ℕ
  pub key : ℕ
  pub flags : ℕ
  pub strict_flags_match : Bool
  pub dropped : Bool

-- `ModifierFlag(AddDataType, AddValue)`.
abbrev modifier_of : ℕ → ℕ → ℕ
modifier_of datatype newval =
    if datatype == Bridge.datatype_modifierflag then newval else ModifierFlag.zero

-- `add`.
unfoldable pub add : ℕ → ℕ → State → State
unfolding Flags.add
add datatype newval s =
    if datatype == Bridge.datatype_keycode
    then record s { key = newval }
    else if datatype == Bridge.datatype_modifierflag
        || datatype == Bridge.datatype_modifierflags_end
    then record s {
      flags = Flags.add s.flags (modifier_of datatype newval);
      strict_flags_match = modifier_of datatype newval == ModifierFlag.none || s.strict_flags_match;
    }
    else s

-- `remap`, with the current serial number.
unfoldable pub remap : ℕ → State → Bool × State
unfolding register_serial_number
remap sn s =
    (true, record s { target_serial_numbers = register_serial_number sn s.target_serial_numbers })

-- `cancelEventOutputQueueItems` of a keyboard event: whether it is canceled, and `dropped_`.
unfoldable pub cancel_key : State → KeyboardEvent → Bool × Bool
unfolding Flags.is_on_flags
cancel_key s p =
    if not (p.key == s.key)
    then (false, s.dropped)
    else if not p.ex_iskeydown
    then (s.dropped, false)
    else if Flags.is_on_flags p.flags s.flags && (not s.strict_flags_match || p.flags == s.flags)
    then (true, true)
    else (false, s.dropped)

abbrev cancel_params : State → ParamsBase → Bool × Bool
cancel_params s (keyboard p) = cancel_key s p
cancel_params s p = (false, s.dropped)

unfoldable pub cancel : State → EventOutputQueue.Item → Bool × Bool
unfolding cancel_key
cancel s i =
    if is_include s.target_serial_numbers i.serial_number
    then cancel_params s i.params
    else (false, s.dropped)
