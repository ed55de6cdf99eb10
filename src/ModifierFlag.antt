-- ===== src/ModifierFlag.antt =====
-- `ModifierFlag` of core/kext/KeyCode.hpp and its raw bits in core/kext/KeyCode.cpp. A modifier is
-- its number `value_`. The numbers are those that src/bridge/generator/keycode/make-code.rb counts
-- out for the `--AUTO--` lines of src/bridge/generator/keycode/data/ModifierFlag.data.
use Prim.Native.Nat.{ℕ}
use karabiner_cn.Base.{◌==◌, if◌then◌else◌}

abbrev pub zero : ℕ
zero = 0

abbrev pub capslock : ℕ
capslock = 1

abbrev pub shift_l : ℕ
shift_l = 2

abbrev pub shift_r : ℕ
shift_r = 3

abbrev pub control_l : ℕ
control_l = 4

abbrev pub control_r : ℕ
control_r = 5

abbrev pub option_l : ℕ
option_l = 6

abbrev pub option_r : ℕ
option_r = 7

abbrev pub command_l : ℕ
command_l = 8

abbrev pub command_r : ℕ
command_r = 9

abbrev pub numpad : ℕ
numpad = 10

abbrev pub fn : ℕ
fn = 11

abbrev pub none : ℕ
none = 12

-- `getRawBits`.
unfoldable pub get_raw_bits : ℕ → ℕ
get_raw_bits m =
    if m == capslock
    then 0x10000
    else if m == shift_l
    then 0x20002
    else if m == shift_r
    then 0x20004
    else if m == control_l
    then 0x40001
    else if m == control_r
    then 0x42000
    else if m == option_l
    then 0x80020
    else if m == option_r
    then 0x80040
    else if m == command_l
    then 0x100008
    else if m == command_r
    then 0x100010
    else if m == numpad
    then 0x200000
    else if m == fn
    then 0x800000
    else 0
