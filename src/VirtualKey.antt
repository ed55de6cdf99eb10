-- ===== src/VirtualKey.antt =====
-- `VK_LOCK`, `VK_STICKY` and `VK_LAZY` of core/kext/VirtualKey: keys that change the status of
-- modifiers. Each takes the event or not, and goes with the others into the argument that stands for
-- `VirtualKey::handle` in EventOutputQueue/FireKey.
use karabiner_cn.Base.{
  ℕ, Bool, true, false, not, ◌&&◌, List, [], ◌∷◌, Option, none, some, ◌==◌, if◌then◌else◌,
}
use karabiner_cn.EventOutputQueue.{State, World, PhysicalEventType}
use karabiner_cn.EventOutputQueue.FireModifiers.{fire}
use karabiner_cn.EventOutputQueue.FirePointer.{fire_modifiers}
use karabiner_cn.EventType
use karabiner_cn.FlagStatus
use karabiner_cn.FlagStatus.Counter.{Item, Method}
use karabiner_cn.KeyCode
use karabiner_cn.KeyCodeModifierFlagPairs.{Pair, KeyCodeType, get_modifier_flag}
use karabiner_cn.ModifierFlag
use karabiner_cn.Params.{KeyboardEvent}
use karabiner_cn.StatusMessage.{Board}

-- A method of the global `FlagStatus`.
abbrev call_flag_status : (List Item → Board → List Item × Board) → State → State
call_flag_status method s =
    let r = method s.flag_status s.board in record s { flag_status = r.0; board = r.1 }

abbrev is_first_key_down_event : KeyboardEvent → Bool
is_first_key_down_event p = p.ex_iskeydown && not p.repeat

-- The modifier of a key code, in the first kind of the list that it is of, with the method of the kind.
unfoldable pub first_method : List Pair → ℕ → List (KeyCodeType × Method) → Option (ℕ × Method)
unfolding get_modifier_flag
first_method pairs key [] = none
first_method pairs key ((type, method) ∷ rest) =
    let later = first_method pairs key rest in
    let flag = get_modifier_flag pairs key type in
    if not (flag == ModifierFlag.zero) then some (flag, method) else later

-- The label `remapped`, behind a method that is called if a key goes down, without a repeat.
unfoldable pub remapped :
    World
    → ℕ
    → KeyboardEvent
    → ℕ
    → PhysicalEventType
    → (List Item → Board → List Item × Board)
    → State
    → Bool × State
unfolding fire
remapped w keyboard_type p autogen_id type method s = (
  true,
  fire_modifiers w autogen_id type keyboard_type
      (if is_first_key_down_event p then call_flag_status method s else s),
)

abbrev pub lock_methods : List (KeyCodeType × Method)
lock_methods =
    (KeyCodeType.vk_lock, Method.lock_toggle)
    ∷ (KeyCodeType.vk_lock_force_on, Method.lock_increase)
    ∷ (KeyCodeType.vk_lock_force_off, Method.lock_decrease)
    ∷ (KeyCodeType.vk_negative_lock, Method.negative_lock_toggle)
    ∷ (KeyCodeType.vk_negative_lock_force_on, Method.negative_lock_increase)
    ∷ (KeyCodeType.vk_negative_lock_force_off, Method.negative_lock_decrease)
    ∷ []

-- `VK_LOCK::handle`; the keyboard type is that of `CommonData`.
unfoldable pub handle_lock :
    World → ℕ → KeyboardEvent → ℕ → PhysicalEventType → State → Bool × State
unfolding first_method remapped FlagStatus.method_flag FlagStatus.lock_clear
    FlagStatus.negative_lock_clear
handle_lock w keyboard_type p autogen_id type s = elim (first_method w.pairs p.key lock_methods) [
  | some (flag, method) ↦
      remapped w keyboard_type p autogen_id type (FlagStatus.method_flag method flag) s
  | none ↦
      if p.key == KeyCode.vk_lock_all_force_off
      then remapped w keyboard_type p autogen_id type FlagStatus.lock_clear s
      else if p.key == KeyCode.vk_negative_lock_all_force_off
      then remapped w keyboard_type p autogen_id type FlagStatus.negative_lock_clear s
      else (false, s)
]

abbrev pub sticky_methods : List (KeyCodeType × Method)
sticky_methods =
    (KeyCodeType.vk_sticky, Method.sticky_toggle)
    ∷ (KeyCodeType.vk_sticky_force_on, Method.sticky_increase)
    ∷ (KeyCodeType.vk_sticky_force_off, Method.sticky_decrease)
    ∷ []

-- `VK_STICKY::handle`.
unfoldable pub handle_sticky :
    World → ℕ → KeyboardEvent → ℕ → PhysicalEventType → State → Bool × State
unfolding first_method remapped FlagStatus.method_flag FlagStatus.sticky_active_modifiers
    FlagStatus.sticky_clear
handle_sticky w keyboard_type p autogen_id type s =
    elim (first_method w.pairs p.key sticky_methods) [
      | some (flag, method) ↦
          remapped w keyboard_type p autogen_id type (FlagStatus.method_flag method flag) s
      | none ↦
          if p.key == KeyCode.vk_sticky_active_modifiers_toggle
          then remapped w keyboard_type p autogen_id type
              (FlagStatus.sticky_active_modifiers Method.sticky_toggle) s
          else if p.key == KeyCode.vk_sticky_active_modifiers_force_on
          then remapped w keyboard_type p autogen_id type
              (FlagStatus.sticky_active_modifiers Method.sticky_increase) s
          else if p.key == KeyCode.vk_sticky_active_modifiers_force_off
          then remapped w keyboard_type p autogen_id type
              (FlagStatus.sticky_active_modifiers Method.sticky_decrease) s
          else if p.key == KeyCode.vk_sticky_all_force_off
          then remapped w keyboard_type p autogen_id type FlagStatus.sticky_clear s
          else (false, s)
    ]

-- `VK_LAZY::getModifierFlag`.
unfoldable pub get_lazy_modifier_flag : ℕ → ℕ
get_lazy_modifier_flag key =
    if key == KeyCode.vk_lazy_command_l
    then ModifierFlag.command_l
    else if key == KeyCode.vk_lazy_command_r
    then ModifierFlag.command_r
    else if key == KeyCode.vk_lazy_control_l
    then ModifierFlag.control_l
    else if key == KeyCode.vk_lazy_control_r
    then ModifierFlag.control_r
    else if key == KeyCode.vk_lazy_fn
    then ModifierFlag.fn
    else if key == KeyCode.vk_lazy_option_l
    then ModifierFlag.option_l
    else if key == KeyCode.vk_lazy_option_r
    then ModifierFlag.option_r
    else if key == KeyCode.vk_lazy_shift_l
    then ModifierFlag.shift_l
    else if key == KeyCode.vk_lazy_shift_r
    then ModifierFlag.shift_r
    else ModifierFlag.zero

-- `VK_LAZY::handle`.
unfoldable pub handle_lazy : KeyboardEvent → State → Bool × State
unfolding get_lazy_modifier_flag FlagStatus.method_flag
handle_lazy p s =
    let f = get_lazy_modifier_flag p.key in
    if f == ModifierFlag.zero
    then (false, s)
    else if p.repeat
    then (true, s)
    else if p.event_type == EventType.down
    then (true, call_flag_status (FlagStatus.method_flag Method.lazy_increase f) s)
    else if p.event_type == EventType.up
    then (true, call_flag_status (FlagStatus.method_flag Method.lazy_decrease f) s)
    else (true, s)
