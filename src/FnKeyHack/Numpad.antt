-- ===== src/FnKeyHack/Numpad.antt =====
-- The numpad flag behind `KeyCode::reverseNormalizeKey` (core/kext/KeyCode.cpp).
use karabiner_cn.Base.{
  ℕ, ◌≡◌, ◌≢◌, ◌<◌, ◌^◌, Bool, true, false, ◌||◌, List, arith, is_include, if◌then◌else◌,
}
use karabiner_cn.Flags
use karabiner_cn.Flags.Laws.{is_on-Covers, is_on-remove_self, Covers-bit_or_right}
use karabiner_cn.KeyCodeModifierFlagPairs.{Pair, modifier_flags}
use karabiner_cn.ModifierFlag
use karabiner_cn.ModifierFlag.{get_raw_bits}
use karabiner_cn.FnKeyHack.{Hack, reverse_normalize_key, numpad_keys, cursor_keys}

numpad_raw : get_raw_bits ModifierFlag.numpad ≢ 0
unfolding get_raw_bits
numpad_raw e = omega (arith, e)

is_on-add :
    (flags : ℕ) → Flags.is_on (Flags.add flags ModifierFlag.numpad) ModifierFlag.numpad ≡ true
unfolding Flags.add
is_on-add flags =
    (is_on-Covers _ ModifierFlag.numpad numpad_raw).1
      (Covers-bit_or_right flags (get_raw_bits ModifierFlag.numpad))

add_twice :
    (a b : Bool) (flags : ℕ)
    → Flags.is_on flags ModifierFlag.numpad ≡ false
    → let once = if a then Flags.add flags ModifierFlag.numpad else flags in
      Flags.is_on (if b then Flags.add once ModifierFlag.numpad else once) ModifierFlag.numpad
      ≡ (a || b)
add_twice true true flags off = is_on-add _
add_twice true false flags off = is_on-add _
add_twice false true flags off = is_on-add _
add_twice false false flags off = off

-- For 32-bit flags, `reverseNormalizeKey` leaves the numpad flag on exactly if the key that it gives
-- is one of the listed keypad keys or a cursor key, whether or not the flag was on before.
pub reverse_normalize_key-numpad :
    (pairs : List Pair) (key flags event_type : ℕ) (hs : List Hack)
    → flags < 2 ^ 32
    → let r = reverse_normalize_key pairs key flags event_type hs in
      Flags.is_on r.1 ModifierFlag.numpad
      ≡ (is_include numpad_keys r.0 || is_include cursor_keys r.0)
unfolding reverse_normalize_key
reverse_normalize_key-numpad pairs key flags event_type hs lt =
    add_twice _ _ (Flags.strip_numpad (modifier_flags pairs) flags)
      (is_on-remove_self (modifier_flags pairs) flags ModifierFlag.numpad lt numpad_raw)
