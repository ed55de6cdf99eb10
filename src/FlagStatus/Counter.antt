-- ===== src/FlagStatus/Counter.antt =====
-- `FlagStatus::Item` of core/kext/Classes/FlagStatus.hpp and FlagStatus.cpp. The counters of type
-- `int` are integers; they do not wrap.
use karabiner_cn.Base.{ℕ, Bool, true, false, List, ◌==◌, ◌||◌, if◌then◌else◌}
use karabiner_cn.Base.Int.{ℤ, pos, ◌+ℤ◌, ◌-ℤ◌, inc, dec, eqb_ℤ, is_pos}
use karabiner_cn.Flags
use karabiner_cn.KeyCodeModifierFlagPairs.{Pair, get_key_code, KeyCodeType}
use karabiner_cn.ModifierFlag

pub record Item : Type 0 where
  pub flag : ℕ
  pub count : ℤ
  pub temporary_count : ℤ
  pub lock_count : ℤ
  pub negative_lock_count : ℤ
  pub sticky_count : ℤ
  pub lazy_count : ℤ
  pub lazy_enabled : Bool

-- `Item()` followed by `initialize(f)`.
unfoldable pub initialize : ℕ → Item
initialize f = record {
  flag = f;
  count = pos 0;
  temporary_count = pos 0;
  lock_count = pos 0;
  negative_lock_count = pos 0;
  sticky_count = pos 0;
  lazy_count = pos 0;
  lazy_enabled = false;
}

-- `!n` of an `int`.
abbrev pub lnot : ℤ → ℤ
lnot n = if eqb_ℤ n (pos 0) then pos 1 else pos 0

-- `sum(forceEnableLazy)`.
unfoldable pub sum : Item → Bool → ℤ
sum x force =
    let total =
      x.count +ℤ x.temporary_count +ℤ x.lock_count -ℤ x.negative_lock_count +ℤ x.sticky_count in
    if force || x.lazy_enabled then total +ℤ x.lazy_count else total

unfoldable pub increase : Item → Item
increase x =
    if x.flag == ModifierFlag.capslock
    then record x { lock_count = lnot x.lock_count }
    else record x { count = inc x.count }

unfoldable pub decrease : Item → Item
decrease x = if x.flag == ModifierFlag.capslock then x else record x { count = dec x.count }

-- `set(void)`.
unfoldable pub set : Item → Item
set x = record x { temporary_count = pos 0 }

-- `set(KeyCode key, Flags flags)`, over the table of modifiers.
unfoldable pub set_key : List Pair → ℕ → ℕ → Item → Item
unfolding increase decrease
set_key pairs key flags x =
    let x' = record x { temporary_count = pos 0 } in
    if key == get_key_code pairs x.flag KeyCodeType.keycode
    then (if x.flag == ModifierFlag.capslock
        then (if Flags.is_on flags x.flag
            then record x' { lock_count = pos 1 }
            else record x' { lock_count = pos 0 })
        else (if Flags.is_on flags x.flag then increase x' else decrease x'))
    else x'

unfoldable pub reset : Item → Item
reset x = record x {
  count = pos 0;
  temporary_count = pos 0;
  lazy_count = pos 0;
  lazy_enabled = false;
}

unfoldable pub lazy_enable : Item → Item
lazy_enable x = record x { lazy_enabled = true }

unfoldable pub lazy_disable_if_off : Item → Item
unfolding sum
lazy_disable_if_off x = if is_pos (sum x true) then x else record x { lazy_enabled = false }

-- The methods that `DEFINE_METHODS` lifts to the vector of items.
pub data Method : Type 0 where
  increases decreases temporary_increase temporary_decrease : Method
  lock_increase lock_decrease lock_toggle : Method
  negative_lock_increase negative_lock_decrease negative_lock_toggle : Method
  sticky_increase sticky_decrease sticky_toggle : Method
  lazy_increase lazy_decrease : Method

unfoldable pub call : Method → Item → Item
unfolding increase decrease
call increases x = increase x
call decreases x = decrease x
call temporary_increase x = record x { temporary_count = inc x.temporary_count }
call temporary_decrease x = record x { temporary_count = dec x.temporary_count }
call lock_increase x = record x { lock_count = pos 1 }
call lock_decrease x = record x { lock_count = pos 0 }
call lock_toggle x = record x { lock_count = lnot x.lock_count }
call negative_lock_increase x = record x { negative_lock_count = pos 1 }
call negative_lock_decrease x = record x { negative_lock_count = pos 0 }
call negative_lock_toggle x = record x { negative_lock_count = lnot x.negative_lock_count }
call sticky_increase x = record x { sticky_count = pos 1 }
call sticky_decrease x = record x { sticky_count = pos 0 }
call sticky_toggle x = record x { sticky_count = lnot x.sticky_count }
call lazy_increase x = record x { lazy_count = inc x.lazy_count }
call lazy_decrease x = record x { lazy_count = dec x.lazy_count }
