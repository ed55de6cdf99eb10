-- ===== src/Flags.antt =====
-- `Flags` of core/kext/KeyCode.hpp and core/kext/KeyCode.cpp: a 32-bit word of raw modifier bits.
-- A value of the class is its number `value_`.
pub mod OwnBit
pub mod Laws
pub mod Consistent
use karabiner_cn.Base.{ℕ, Bool, true, false, List, [], ◌∷◌, ◌==◌, if◌then◌else◌, bit_and, bit_or}
use karabiner_cn.Base.Bits.{complement}
use karabiner_cn.ModifierFlag
use karabiner_cn.ModifierFlag.{get_raw_bits}

-- `Flags(const Vector_ModifierFlag&)`: the bits of every modifier, or-ed from the left.
unfoldable pub of_modifiers_from : ℕ → List ℕ → ℕ
of_modifiers_from value [] = value
of_modifiers_from value (m ∷ ms) = of_modifiers_from (bit_or value (get_raw_bits m)) ms

abbrev pub of_modifiers : List ℕ → ℕ
of_modifiers = of_modifiers_from 0

-- `add(ModifierFlag)`.
unfoldable pub add : ℕ → ℕ → ℕ
add value m = bit_or value (get_raw_bits m)

-- `isOn(ModifierFlag)`.
unfoldable pub is_on : ℕ → ℕ → Bool
is_on value m =
    if m == ModifierFlag.zero
    then true
    else if get_raw_bits m == 0
    then false
    else bit_and value (get_raw_bits m) == get_raw_bits m

-- `isOn(Flags)`.
unfoldable pub is_on_flags : ℕ → ℕ → Bool
is_on_flags value other = bit_and value other == other

-- The loop of `remove`: the bits of every other registered modifier that was on are put back.
unfoldable pub restore : ℕ → ℕ → List ℕ → ℕ → ℕ
restore old m [] value = value
restore old m (f ∷ fs) value =
    restore old m fs
      (if f == m then value else if is_on old f then bit_or value (get_raw_bits f) else value)

-- `remove(ModifierFlag)`, over the registered modifiers.
unfoldable pub remove : List ℕ → ℕ → ℕ → ℕ
unfolding restore
remove registered value m =
    restore value m registered (bit_and value (complement 32 (get_raw_bits m)))

-- `stripFN` and `stripNUMPAD`.
abbrev pub strip_fn : List ℕ → ℕ → ℕ
strip_fn registered value = remove registered value ModifierFlag.fn

abbrev pub strip_numpad : List ℕ → ℕ → ℕ
strip_numpad registered value = remove registered value ModifierFlag.numpad
