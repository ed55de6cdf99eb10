-- ===== src/FromEvent.antt =====
-- `FromEvent` and `PressingFromEvents` of core/kext/Classes/FromEvent.hpp and FromEvent.cpp: the
-- event that a rule waits for, and the list of the rules whose event is held down. The list holds
-- the addresses of `FromEvent` objects, which are numbers here.
pub mod Laws
use karabiner_cn.Base.{
  ℕ, zero, suc, Bool, true, false, not, ◌&&◌, List, [], ◌∷◌, ◌++◌, Option, none, some, ◌==◌, length,
  if◌then◌else◌, any_of,
}
use karabiner_cn.Buttons
use karabiner_cn.FlagStatus
use karabiner_cn.FlagStatus.Counter.{Item}
use karabiner_cn.Params.{
  ParamsBase, keyboard, keyboard_special, relative_pointer, KeyboardEvent, KeyboardSpecialEvent,
  RelativePointerEvent,
}

-- An object, by its `type_` with the one code that the type reads.
pub data FromEvent : Type 0 where
  no_event : FromEvent
  key : ℕ → FromEvent
  consumer_key : ℕ → FromEvent
  pointing_button : ℕ → FromEvent

-- The constructor `FromEvent(const Params_Base&)`.
unfoldable pub of_params : ParamsBase → FromEvent
of_params (keyboard p) = key p.key
of_params (keyboard_special p) = consumer_key p.key
of_params (relative_pointer p) = pointing_button p.ex_button
of_params p = no_event

-- `BRIDGE_DATATYPE_*` of bridge/include/bridge.h.
abbrev pub datatype_keycode : ℕ
datatype_keycode = 1

abbrev pub datatype_consumerkeycode : ℕ
datatype_consumerkeycode = 4

abbrev pub datatype_pointingbutton : ℕ
datatype_pointingbutton = 5

-- The constructor `FromEvent(AddDataType, AddValue)`.
unfoldable pub of_data : ℕ → ℕ → FromEvent
of_data datatype v =
    if datatype == datatype_keycode
    then key v
    else if datatype == datatype_consumerkeycode
    then consumer_key v
    else if datatype == datatype_pointingbutton
    then pointing_button v
    else no_event

-- `isTargetEvent(bool& isDown, const Params_Base&)`: some isDown where it returns true.
unfoldable pub target_event : FromEvent → ParamsBase → Option Bool
target_event (key k) (keyboard p) = if p.key == k then some p.ex_iskeydown else none
target_event (consumer_key k) (keyboard_special p) =
    if p.key == k then some p.ex_iskeydown else none
target_event (pointing_button b) (relative_pointer p) =
    if p.ex_button == b then some p.ex_isbuttondown else none
target_event e p = none

unfoldable pub is_target_event : FromEvent → ParamsBase → Bool
unfolding target_event
is_target_event e p = elim (target_event e p) [ none ↦ false | some is_down ↦ true ]

unfoldable pub is_target_down_event : FromEvent → ParamsBase → Bool
unfolding target_event
is_target_down_event e p = elim (target_event e p) [ none ↦ false | some is_down ↦ is_down ]

unfoldable pub is_target_up_event : FromEvent → ParamsBase → Bool
unfolding target_event
is_target_up_event e p = elim (target_event e p) [ none ↦ false | some is_down ↦ not is_down ]

-- `PressingFromEvents::find`, as a truth value, which is `isPressing`.
abbrev pub find : ℕ → List ℕ → Bool
find p = any_of λ q. q == p

-- `PressingFromEvents::erase`: the first entry goes.
unfoldable pub erase : ℕ → List ℕ → Bool × List ℕ
erase p [] = (false, [])
erase p (q ∷ qs) = let rest = erase p qs in if q == p then (true, qs) else (rest.0, q ∷ rest.1)

-- The loop of `PressingFromEvents::erase_all`, on fuel.
unfoldable pub erase_all_fuel : ℕ → ℕ → List ℕ → Option (List ℕ)
unfolding erase
erase_all_fuel zero p qs = none
erase_all_fuel (suc n) p qs =
    let r = erase p qs in let rest = erase_all_fuel n p r.1 in if r.0 then rest else some r.1

-- `erase_all`, which is what the destructor does, with a turn for each entry and one more.
abbrev pub erase_all : ℕ → List ℕ → Option (List ℕ)
erase_all p qs = erase_all_fuel (suc (length qs)) p qs

-- `changePressingState` of the object `e` at the address `self`.
unfoldable pub change_pressing_state :
    ℕ → FromEvent → ParamsBase → List Item → List ℕ → List ℕ → Bool × List ℕ
unfolding target_event erase FlagStatus.are_on
change_pressing_state self e p current_flags from_flags qs = elim (target_event e p) [
  | none ↦ (false, qs)
  | some true ↦
      if FlagStatus.are_on current_flags from_flags then (true, qs ++ (self ∷ [])) else (false, qs)
  | some false ↦ let r = erase self qs in (if r.0 then (true, r.1) else (false, r.1))
]
