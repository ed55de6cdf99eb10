-- ===== src/EventOutputQueue/FirePointer.antt =====
-- `FireConsumer`, `FireRelativePointer`, `FireScrollWheel` and `FireWait` of
-- core/kext/Classes/EventOutputQueue.cpp: the modifiers, and the event.
use karabiner_cn.Base.{ℕ, ◌/◌, false, not, ◌||◌, ◌==◌, if◌then◌else◌}
use karabiner_cn.Base.Int.{ℤ, pos, ◌*ℤ◌, quot, to_signed, eqb_ℤ}
use karabiner_cn.Buttons
use karabiner_cn.FlagStatus.{make_flags}
use karabiner_cn.KeyboardRepeat.{consumer_vk_none}
use karabiner_cn.Params.{
  ParamsBase, KeyboardSpecialEvent, ScrollWheelEvent, keyboard_special, relative_pointer,
  scroll_wheel, wait,
}
use karabiner_cn.EventOutputQueue.{State, World, PhysicalEventType, push}
use karabiner_cn.EventOutputQueue.FireModifiers.{fire}

-- `ConsumerKeyCode::VK_PSEUDO_KEY` of src/bridge/generator/keycode/data/ConsumerKeyCode.data.
abbrev consumer_vk_pseudo_key : ℕ
consumer_vk_pseudo_key = 0x10000001

abbrev allow_physical_up : State → State
allow_physical_up s = record s { is_ignore_physical_up_event = false }

-- `FireModifiers::fire` with its default arguments; the keyboard type is that of `CommonData`.
abbrev pub fire_modifiers : World → ℕ → PhysicalEventType → ℕ → State → State
fire_modifiers w autogen_id type keyboard_type s =
    fire w autogen_id type (make_flags s.flag_status) keyboard_type s

unfoldable pub fire_consumer :
    World → KeyboardSpecialEvent → ℕ → PhysicalEventType → ℕ → State → State
unfolding push fire
fire_consumer w p autogen_id type keyboard_type s =
    if p.key == consumer_vk_none || p.key == consumer_vk_pseudo_key
    then s
    else push w (keyboard_special p) autogen_id (
        fire_modifiers w autogen_id type keyboard_type
          (if p.ex_iskeydown then allow_physical_up s else s))

abbrev pointer_event : ℕ → ℤ → ℤ → ParamsBase
pointer_event buttons x y = relative_pointer (record {
  buttons = buttons;
  dx = x;
  dy = y;
  ex_button = Buttons.none;
  ex_isbuttondown = false;
})

-- The event for the buttons, and the one for the cursor.
unfoldable pub send_buttons : World → ℕ → ℕ → State → State
unfolding push
send_buttons w autogen_id to_buttons s =
    if s.last_buttons == to_buttons
    then s
    else push w (pointer_event to_buttons (pos 0) (pos 0)) autogen_id
        (record s { last_buttons = to_buttons })

unfoldable pub send_cursor : World → ℕ → ℕ → ℤ → ℤ → State → State
unfolding push
send_cursor w autogen_id to_buttons dx dy s =
    if not (eqb_ℤ dx (pos 0)) || not (eqb_ℤ dy (pos 0))
    then push w (pointer_event to_buttons dx dy) autogen_id s
    else s

-- The modifiers go out in front, or behind if a button is released.
unfoldable pub fire_relative_pointer : World → ℕ → PhysicalEventType → ℕ → ℕ → ℤ → ℤ → State → State
unfolding fire send_buttons send_cursor Buttons.remove
fire_relative_pointer w autogen_id type keyboard_type to_buttons dx dy s =
    let is_button_released = not (Buttons.remove s.last_buttons to_buttons == Buttons.none) in
    let s1 = allow_physical_up s in
    let s2 =
      if not is_button_released then fire_modifiers w autogen_id type keyboard_type s1 else s1 in
    let s3 = send_cursor w autogen_id to_buttons dx dy (send_buttons w autogen_id to_buttons s2) in
    if is_button_released then fire_modifiers w autogen_id type keyboard_type s3 else s3

unfoldable pub fire_scroll_wheel :
    World → ScrollWheelEvent → ℕ → PhysicalEventType → ℕ → State → State
unfolding push fire
fire_scroll_wheel w p autogen_id type keyboard_type s =
    push w (scroll_wheel p) autogen_id
      (fire_modifiers w autogen_id type keyboard_type (allow_physical_up s))

abbrev pub pointing_fixed_scale : ℕ
pointing_fixed_scale = 65536

abbrev pub pointing_point_scale : ℕ
pointing_point_scale = 10

abbrev pub delta_scale : ℕ
delta_scale = 128

-- The three deltas that two arguments of `fire` are made into, by the rate of the configuration. An
-- `int` does not wrap; a `short` keeps 16 bits.
unfoldable pub delta_axis : ℤ → ℤ → ℤ
unfolding ◌*ℤ◌ quot to_signed
delta_axis delta rate = to_signed 16 (quot (quot (delta *ℤ rate) 1024) delta_scale)

unfoldable pub fixed_delta : ℤ → ℤ → ℤ
unfolding ◌*ℤ◌ quot
fixed_delta delta rate = quot (delta *ℤ rate *ℤ pos (pointing_fixed_scale / 1024)) delta_scale

unfoldable pub point_delta : ℤ → ℤ → ℤ
unfolding ◌*ℤ◌ quot
point_delta delta rate = quot (quot (delta *ℤ pos pointing_point_scale *ℤ rate) 1024) delta_scale

unfoldable pub fire_scroll_deltas : World → ℤ → ℤ → ℤ → ℕ → PhysicalEventType → ℕ → State → State
unfolding fire_scroll_wheel delta_axis fixed_delta point_delta
fire_scroll_deltas w rate delta1 delta2 autogen_id type keyboard_type s =
    fire_scroll_wheel w
      (record {
        delta_axis1 = delta_axis delta1 rate;
        delta_axis2 = delta_axis delta2 rate;
        delta_axis3 = pos 0;
        fixed_delta1 = fixed_delta delta1 rate;
        fixed_delta2 = fixed_delta delta2 rate;
        fixed_delta3 = pos 0;
        point_delta1 = point_delta delta1 rate;
        point_delta2 = point_delta delta2 rate;
        point_delta3 = pos 0;
        options = pos 1;
      })
      autogen_id type keyboard_type s

-- `FireWait::fire`.
unfoldable pub fire_wait : World → ℤ → ℕ → State → State
unfolding push
fire_wait w milliseconds autogen_id s = push w (wait milliseconds) autogen_id s
