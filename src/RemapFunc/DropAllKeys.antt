-- ===== src/RemapFunc/DropAllKeys.antt =====
-- `DropAllKeys` of core/kext/RemapFunc/DropAllKeys.hpp and DropAllKeys.cpp: while its modifiers are
-- on, key downs are canceled in the output queue, and with each one its key up.
pub mod Pairs
use karabiner_cn.Base.{
  ℕ, Bool, true, false, not, ◌&&◌, ◌||◌, List, [], ◌∷◌, ◌++◌, Option, none, some, ◌==◌, ltb,
  if◌then◌else◌, is_include,
}
use karabiner_cn.Bridge
use karabiner_cn.Buttons
use karabiner_cn.EventOutputQueue
use karabiner_cn.FlagStatus
use karabiner_cn.FlagStatus.Counter
use karabiner_cn.FromEvent.{FromEvent, of_params, is_target_event}
use karabiner_cn.KeyCodeModifierFlagPairs.{Pair}
use karabiner_cn.ModifierFlag
use karabiner_cn.Params.{
  ParamsBase, keyboard, keyboard_special, relative_pointer, iskeydown, is_modifier, is_repeat,
}
use karabiner_cn.RemapFunc.{register_serial_number}

-- The values of src/bridge/generator/keycode/data/Option.data.
abbrev option_drop_key : ℕ
option_drop_key = 16

abbrev option_drop_consumerkey : ℕ
option_drop_consumerkey = 17

abbrev option_drop_pointingbutton : ℕ
option_drop_pointingbutton = 18

pub record State : Type 0 where
  pub target_serial_numbers : List ℕ
  pub from_modifier_flags : List ℕ
  pub drop_key : Bool
  pub drop_consumer_key : Bool
  pub drop_pointing_button : Bool
  pub modifier_matched : Bool
  pub do_cancel : Bool
  pub dropped : List FromEvent
  pub autogen_id : ℕ

-- `add`.
unfoldable pub add : ℕ → ℕ → State → State
add datatype newval s =
    if datatype == Bridge.datatype_modifierflag
    then (if not (newval == ModifierFlag.zero) && not (newval == ModifierFlag.none)
        then record s { from_modifier_flags = s.from_modifier_flags ++ (newval ∷ []) }
        else s)
    else if not (datatype == Bridge.datatype_option)
    then s
    else if newval == option_drop_key
    then record s { drop_key = true }
    else if newval == option_drop_consumerkey
    then record s { drop_consumer_key = true }
    else if newval == option_drop_pointingbutton
    then record s { drop_pointing_button = true }
    else s

abbrev pub is_empty : List ℕ → Bool
is_empty [] = true
is_empty (x ∷ xs) = false

-- `remap`, with the current serial number and the global `FlagStatus`.
unfoldable pub remap : ℕ → List Counter.Item → State → Bool × State
unfolding register_serial_number FlagStatus.are_on
remap sn items s =
    let targets = register_serial_number sn s.target_serial_numbers in
    if is_empty s.from_modifier_flags
    then (
      false,
      record s { target_serial_numbers = targets; modifier_matched = false; do_cancel = false },
    )
    else (
      true,
      record s {
        target_serial_numbers = targets;
        modifier_matched = FlagStatus.are_on items s.from_modifier_flags;
        do_cancel = true;
      },
    )

-- The loops of `dropKey` over `dropped_`: whether the event is of a dropped key, and the list without
-- that key.
unfoldable pub found : ParamsBase → List FromEvent → Bool
unfolding is_target_event
found p [] = false
found p (e ∷ es) = let rest = found p es in is_target_event e p || rest

unfoldable pub erase_found : ParamsBase → List FromEvent → List FromEvent
unfolding is_target_event
erase_found p [] = []
erase_found p (e ∷ es) =
    let rest = erase_found p es in if is_target_event e p then rest else e ∷ rest

-- `dropKey`: whether the item is canceled, and the dropped keys, by `modifierMatched_`.
abbrev pub drop_direction : Bool → ParamsBase → Option Bool → List FromEvent → Bool × List FromEvent
drop_direction matched p none dropped = (false, dropped)
drop_direction matched p (some true) dropped =
    if is_repeat p
    then (found p dropped, dropped)
    else if matched
    then (true, dropped ++ (of_params p ∷ []))
    else (false, dropped)
drop_direction matched p (some false) dropped = (found p dropped, erase_found p dropped)

unfoldable pub drop_key : Bool → ParamsBase → List FromEvent → Bool × List FromEvent
unfolding iskeydown is_repeat found erase_found of_params
drop_key matched p dropped = drop_direction matched p (iskeydown p) dropped

-- The part of `cancelEventOutputQueueItems` behind the guards, by the kind of the event.
unfoldable pub cancel_kind : State → ParamsBase → Bool × List FromEvent
unfolding drop_key
cancel_kind s (keyboard p) =
    if s.drop_key then drop_key s.modifier_matched (keyboard p) s.dropped else (false, s.dropped)
cancel_kind s (keyboard_special p) =
    if s.drop_consumer_key
    then drop_key s.modifier_matched (keyboard_special p) s.dropped
    else (false, s.dropped)
cancel_kind s (relative_pointer p) =
    (s.drop_pointing_button && s.modifier_matched && not (p.buttons == Buttons.none), s.dropped)
cancel_kind s p = (false, s.dropped)

-- The guards: the item is of a registered event, not pushed before this rule, and no modifier.
unfoldable pub looks_at : List Pair → State → EventOutputQueue.Item → Bool
unfolding is_modifier
looks_at pairs s i =
    is_include s.target_serial_numbers i.serial_number
    && s.do_cancel
    && not (ltb i.autogen_id s.autogen_id)
    && not (is_modifier pairs i.params)

-- `cancelEventOutputQueueItems`.
unfoldable pub cancel : List Pair → State → EventOutputQueue.Item → Bool × List FromEvent
unfolding looks_at cancel_kind
cancel pairs s i = if looks_at pairs s i then cancel_kind s i.params else (false, s.dropped)
