-- ===== src/Buttons.antt =====
-- `Buttons` of core/kext/KeyCode.hpp: a 32-bit word with one bit for each pointing button.
-- A value of the class, or of `PointingButton`, is its number `value_`.
pub mod Laws
use karabiner_cn.Base.{ℕ, Bool, ◌==◌, bit_and, bit_or}
use karabiner_cn.Base.Bits.{complement}

-- The values of src/bridge/generator/keycode/data/PointingButton.data that the source names.
abbrev pub none : ℕ
none = 0

abbrev pub right : ℕ
right = 0x1

abbrev pub middle : ℕ
middle = 0x2

abbrev pub left : ℕ
left = 0x4

-- `add(Buttons)`.
unfoldable pub add : ℕ → ℕ → ℕ
add value buttons = bit_or value buttons

-- `remove(Buttons)`.
unfoldable pub remove : ℕ → ℕ → ℕ
remove value buttons = bit_and value (complement 32 buttons)

-- `isOn(Buttons)`.
unfoldable pub is_on : ℕ → ℕ → Bool
is_on value buttons = bit_and value buttons == buttons

unfoldable pub just_pressed : ℕ → ℕ → ℕ
just_pressed value previous = bit_and value (complement 32 previous)

unfoldable pub just_released : ℕ → ℕ → ℕ
just_released value previous = bit_and (complement 32 value) previous
