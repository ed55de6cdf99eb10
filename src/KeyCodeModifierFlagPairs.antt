-- ===== src/KeyCodeModifierFlagPairs.antt =====
-- core/kext/Classes/KeyCodeModifierFlagPairs.hpp and KeyCodeModifierFlagPairs.cpp: the table of the
-- modifiers, with the key code of each and the virtual keys that lock, unlock or stick it. The
-- static vector `pairs_` is an argument and a result. The values of the virtual keys are those of
-- src/bridge/generator/keycode/data/KeyCode.data.
use karabiner_cn.Base.{ℕ, List, [], ◌∷◌, ◌++◌, map, ◌==◌, if◌then◌else◌}
use karabiner_cn.KeyCode
use karabiner_cn.ModifierFlag

-- `KeyCodeType::Value`.
pub data KeyCodeType : Type 0 where
  keycode vk_lock vk_lock_force_on vk_lock_force_off : KeyCodeType
  vk_negative_lock vk_negative_lock_force_on vk_negative_lock_force_off : KeyCodeType
  vk_sticky vk_sticky_force_on vk_sticky_force_off end : KeyCodeType

-- `Pair`: the array `keyCode_` is a function of its index. The index `end` is never stored.
pub record Pair : Type 0 where
  pub modifier_flag : ℕ
  pub key_codes : KeyCodeType → ℕ

-- The constructor of `Pair` with its eleven arguments.
abbrev pub make_pair : ℕ → ℕ → ℕ → ℕ → ℕ → ℕ → ℕ → ℕ → ℕ → ℕ → ℕ → Pair
make_pair m k lock lock_on lock_off negative negative_on negative_off sticky sticky_on sticky_off =
    record {
      modifier_flag = m;
      key_codes = λ type. elim type [
        | KeyCodeType.keycode ↦ k
        | KeyCodeType.vk_lock ↦ lock
        | KeyCodeType.vk_lock_force_on ↦ lock_on
        | KeyCodeType.vk_lock_force_off ↦ lock_off
        | KeyCodeType.vk_negative_lock ↦ negative
        | KeyCodeType.vk_negative_lock_force_on ↦ negative_on
        | KeyCodeType.vk_negative_lock_force_off ↦ negative_off
        | KeyCodeType.vk_sticky ↦ sticky
        | KeyCodeType.vk_sticky_force_on ↦ sticky_on
        | KeyCodeType.vk_sticky_force_off ↦ sticky_off
        | KeyCodeType.end ↦ KeyCode.vk_none
      ];
    }

-- `Pair::getKeyCode`.
abbrev pub key_code_of_pair : Pair → KeyCodeType → ℕ
key_code_of_pair p KeyCodeType.end = KeyCode.vk_none
key_code_of_pair p type = p.key_codes type

-- The vector after `clearVirtualModifiers`: the ten modifiers in the order of registration.
abbrev pub clear_virtual_modifiers : List Pair
clear_virtual_modifiers =
    make_pair ModifierFlag.capslock KeyCode.capslock 0x10000006 0x10000016 0x10000026 0x10000037
      0x10000047 0x10000057 0x10000068 0x10000078 0x10000088
    ∷ make_pair ModifierFlag.command_l KeyCode.command_l 0x10000007 0x10000017 0x10000027 0x10000038
        0x10000048 0x10000058 0x10000069 0x10000079 0x10000089
    ∷ make_pair ModifierFlag.command_r KeyCode.command_r 0x10000008 0x10000018 0x10000028 0x10000039
        0x10000049 0x10000059 0x10000070 0x10000080 0x10000090
    ∷ make_pair ModifierFlag.control_l KeyCode.control_l 0x10000009 0x10000019 0x10000029 0x10000040
        0x10000050 0x10000060 0x10000071 0x10000081 0x10000091
    ∷ make_pair ModifierFlag.control_r KeyCode.control_r 0x10000010 0x10000020 0x10000030 0x10000041
        0x10000051 0x10000061 0x10000072 0x10000082 0x10000092
    ∷ make_pair ModifierFlag.fn KeyCode.fn 0x10000011 0x10000021 0x10000031 0x10000042 0x10000052
        0x10000062 0x10000073 0x10000083 0x10000093
    ∷ make_pair ModifierFlag.option_l KeyCode.option_l 0x10000012 0x10000022 0x10000032 0x10000043
        0x10000053 0x10000063 0x10000074 0x10000084 0x10000094
    ∷ make_pair ModifierFlag.option_r KeyCode.option_r 0x10000013 0x10000023 0x10000033 0x10000044
        0x10000054 0x10000064 0x10000075 0x10000085 0x10000095
    ∷ make_pair ModifierFlag.shift_l KeyCode.shift_l 0x10000014 0x10000024 0x10000034 0x10000045
        0x10000055 0x10000065 0x10000076 0x10000086 0x10000096
    ∷ make_pair ModifierFlag.shift_r KeyCode.shift_r 0x10000015 0x10000025 0x10000035 0x10000046
        0x10000056 0x10000066 0x10000077 0x10000087 0x10000097
    ∷ []

-- `registerVirtualModifier`, its eleven arguments given as the pair that is made of them.
abbrev pub register_virtual_modifier : List Pair → Pair → List Pair
register_virtual_modifier pairs p = pairs ++ (p ∷ [])

-- The modifiers of the table, in order.
abbrev pub modifier_flags : List Pair → List ℕ
modifier_flags = map λ p. p.modifier_flag

-- `getKeyCode`: the first pair of the modifier decides.
unfoldable pub get_key_code : List Pair → ℕ → KeyCodeType → ℕ
get_key_code [] m type = KeyCode.vk_none
get_key_code (p ∷ ps) m type =
    if p.modifier_flag == m then key_code_of_pair p type else get_key_code ps m type

-- `getModifierFlag`: the first pair with the key code decides.
unfoldable pub get_modifier_flag : List Pair → ℕ → KeyCodeType → ℕ
get_modifier_flag [] k type = ModifierFlag.zero
get_modifier_flag (p ∷ ps) k type =
    if key_code_of_pair p type == k then p.modifier_flag else get_modifier_flag ps k type
