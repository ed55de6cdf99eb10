-- ===== src/Params.antt =====
-- The parameters of an event, core/kext/Classes/Params.hpp and Params.cpp: one class for each kind
-- of event, and `Params_Base`, whose virtual functions tell the kinds apart. A null pointer is
-- `Params_Base::emptyInstance()`. Numbers of C++ are their values.
use karabiner_cn.Base.{ℕ, Bool, true, false, List, Option, none, some, ◌==◌, if◌then◌else◌}
use karabiner_cn.Base.Int.{ℤ}
use karabiner_cn.Buttons
use karabiner_cn.EventType
use karabiner_cn.EventType.{is_key_down_or_modifier_down}
use karabiner_cn.KeyCodeModifierFlagPairs.{Pair, KeyCodeType, get_modifier_flag}
use karabiner_cn.ModifierFlag

-- `Params_KeyboardEventCallBack`.
pub record KeyboardEvent : Type 0 where
  pub event_type : ℕ
  pub flags : ℕ
  pub key : ℕ
  pub char_code : ℕ
  pub char_set : ℕ
  pub orig_char_code : ℕ
  pub orig_char_set : ℕ
  pub keyboard_type : ℕ
  pub repeat : Bool
  pub ex_iskeydown : Bool

-- Its constructor with five arguments.
unfoldable pub make_keyboard_event : List Pair → ℕ → ℕ → ℕ → ℕ → Bool → KeyboardEvent
unfolding is_key_down_or_modifier_down
make_keyboard_event pairs et fl kc kt r = record {
  event_type = et;
  flags = fl;
  key = kc;
  char_code = 0;
  char_set = 0;
  orig_char_code = 0;
  orig_char_set = 0;
  keyboard_type = kt;
  repeat = r;
  ex_iskeydown = is_key_down_or_modifier_down pairs et kc fl;
}

-- `Params_KeyboardSpecialEventCallback`.
pub record KeyboardSpecialEvent : Type 0 where
  pub event_type : ℕ
  pub flags : ℕ
  pub key : ℕ
  pub flavor : ℕ
  pub guid : ℕ
  pub repeat : Bool
  pub ex_iskeydown : Bool

-- Its constructor with four arguments; the guid is the 64-bit -1.
unfoldable pub make_special_event : ℕ → ℕ → ℕ → Bool → KeyboardSpecialEvent
make_special_event et fl ckc r = record {
  event_type = et;
  flags = fl;
  key = ckc;
  flavor = ckc;
  guid = 0xffffffffffffffff;
  repeat = r;
  ex_iskeydown = et == EventType.down;
}

-- `Params_RelativePointerEventCallback`.
pub record RelativePointerEvent : Type 0 where
  pub buttons : ℕ
  pub dx : ℤ
  pub dy : ℤ
  pub ex_button : ℕ
  pub ex_isbuttondown : Bool

-- `Params_ScrollWheelEventCallback`.
pub record ScrollWheelEvent : Type 0 where
  pub delta_axis1 : ℤ
  pub delta_axis2 : ℤ
  pub delta_axis3 : ℤ
  pub fixed_delta1 : ℤ
  pub fixed_delta2 : ℤ
  pub fixed_delta3 : ℤ
  pub point_delta1 : ℤ
  pub point_delta2 : ℤ
  pub point_delta3 : ℤ
  pub options : ℤ

-- `Params_Base` and the classes below it.
pub data ParamsBase : Type 0 where
  empty_instance : ParamsBase
  keyboard : KeyboardEvent → ParamsBase
  update_event_flags : ℕ → ParamsBase
  keyboard_special : KeyboardSpecialEvent → ParamsBase
  relative_pointer : RelativePointerEvent → ParamsBase
  scroll_wheel : ScrollWheelEvent → ParamsBase
  wait : ℤ → ParamsBase

-- `iskeydown`: none where the function returns false, and otherwise its output.
unfoldable pub iskeydown : ParamsBase → Option Bool
iskeydown (keyboard p) = some p.ex_iskeydown
iskeydown (keyboard_special p) = some p.ex_iskeydown
iskeydown (relative_pointer p) =
    if p.ex_button == Buttons.none then none else some p.ex_isbuttondown
iskeydown p = none

unfoldable pub is_modifier : List Pair → ParamsBase → Bool
unfolding get_modifier_flag
is_modifier pairs (keyboard p) =
    if get_modifier_flag pairs p.key KeyCodeType.keycode == ModifierFlag.zero then false else true
is_modifier pairs p = false

unfoldable pub is_repeat : ParamsBase → Bool
is_repeat (keyboard p) = p.repeat
is_repeat (keyboard_special p) = p.repeat
is_repeat p = false
