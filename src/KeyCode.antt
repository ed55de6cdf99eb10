-- ===== src/KeyCode.antt =====
-- The key codes that the kernel extension names, with the values that
-- src/bridge/generator/keycode/data/KeyCode.data gives them. `--AUTO--` there counts up from the
-- line above, as src/bridge/generator/keycode/make-code.rb does it: on the digits of the text, so
-- 0x10000009 is followed by 0x10000010.
use Prim.Native.Nat.{ℕ}

abbrev pub keypad_0 : ℕ
keypad_0 = 0x52

abbrev pub keypad_1 : ℕ
keypad_1 = 0x53

abbrev pub keypad_2 : ℕ
keypad_2 = 0x54

abbrev pub keypad_3 : ℕ
keypad_3 = 0x55

abbrev pub keypad_4 : ℕ
keypad_4 = 0x56

abbrev pub keypad_5 : ℕ
keypad_5 = 0x57

abbrev pub keypad_6 : ℕ
keypad_6 = 0x58

abbrev pub keypad_7 : ℕ
keypad_7 = 0x59

abbrev pub keypad_8 : ℕ
keypad_8 = 0x5b

abbrev pub keypad_9 : ℕ
keypad_9 = 0x5c

abbrev pub keypad_dot : ℕ
keypad_dot = 0x41

abbrev pub keypad_equal : ℕ
keypad_equal = 0x51

abbrev pub keypad_minus : ℕ
keypad_minus = 0x4e

abbrev pub keypad_multiply : ℕ
keypad_multiply = 0x43

abbrev pub keypad_plus : ℕ
keypad_plus = 0x45

abbrev pub keypad_slash : ℕ
keypad_slash = 0x4b

abbrev pub delete : ℕ
delete = 0x33

abbrev pub enter : ℕ
enter = 0x4c

abbrev pub forward_delete : ℕ
forward_delete = 0x75

abbrev pub return : ℕ
return = 0x24

abbrev pub cursor_up : ℕ
cursor_up = 0x7e

abbrev pub cursor_down : ℕ
cursor_down = 0x7d

abbrev pub cursor_left : ℕ
cursor_left = 0x7b

abbrev pub cursor_right : ℕ
cursor_right = 0x7c

abbrev pub pageup : ℕ
pageup = 0x74

abbrev pub pagedown : ℕ
pagedown = 0x79

abbrev pub home : ℕ
home = 0x73

abbrev pub end : ℕ
end = 0x77

abbrev pub capslock : ℕ
capslock = 0x39

abbrev pub command_l : ℕ
command_l = 0x37

abbrev pub command_r : ℕ
command_r = 0x36

abbrev pub control_l : ℕ
control_l = 0x3b

abbrev pub control_r : ℕ
control_r = 0x3e

abbrev pub fn : ℕ
fn = 0x3f

abbrev pub option_l : ℕ
option_l = 0x3a

abbrev pub option_r : ℕ
option_r = 0x3d

abbrev pub shift_l : ℕ
shift_l = 0x38

abbrev pub shift_r : ℕ
shift_r = 0x3c

abbrev pub vk_none : ℕ
vk_none = 0x10000001

abbrev pub vk_pseudo_key : ℕ
vk_pseudo_key = 0x10000002

abbrev pub vk_lock_all_force_off : ℕ
vk_lock_all_force_off = 0x10000036

abbrev pub vk_negative_lock_all_force_off : ℕ
vk_negative_lock_all_force_off = 0x10000067

abbrev pub vk_sticky_active_modifiers_toggle : ℕ
vk_sticky_active_modifiers_toggle = 0x10000098

abbrev pub vk_sticky_active_modifiers_force_on : ℕ
vk_sticky_active_modifiers_force_on = 0x10000099

abbrev pub vk_sticky_active_modifiers_force_off : ℕ
vk_sticky_active_modifiers_force_off = 0x10000100

abbrev pub vk_sticky_all_force_off : ℕ
vk_sticky_all_force_off = 0x10000101

abbrev pub vk_lazy_command_l : ℕ
vk_lazy_command_l = 0x10000102

abbrev pub vk_lazy_command_r : ℕ
vk_lazy_command_r = 0x10000103

abbrev pub vk_lazy_control_l : ℕ
vk_lazy_control_l = 0x10000104

abbrev pub vk_lazy_control_r : ℕ
vk_lazy_control_r = 0x10000105

abbrev pub vk_lazy_fn : ℕ
vk_lazy_fn = 0x10000106

abbrev pub vk_lazy_option_l : ℕ
vk_lazy_option_l = 0x10000107

abbrev pub vk_lazy_option_r : ℕ
vk_lazy_option_r = 0x10000108

abbrev pub vk_lazy_shift_l : ℕ
vk_lazy_shift_l = 0x10000109

abbrev pub vk_lazy_shift_r : ℕ
vk_lazy_shift_r = 0x10000110
