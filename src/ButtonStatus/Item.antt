-- ===== src/ButtonStatus/Item.antt =====
-- `ButtonStatus::Item` of core/kext/Classes/ButtonStatus.hpp: the counters of one pointing button.
use karabiner_cn.Base.{ℕ, Bool, ◌==◌, if◌then◌else◌}
use karabiner_cn.Base.Int.{ℤ, pos, ◌+ℤ◌, ◌-ℤ◌, inc, dec, is_pos, eqb_ℤ}

pub record Button : Type 0 where
  pub button : ℕ
  pub count : ℤ
  pub lock_count : ℤ

unfoldable pub initialize : ℕ → Button
initialize b = record { button = b; count = pos 0; lock_count = pos 0 }

unfoldable pub increase : Button → Button
unfolding ◌+ℤ◌
increase x = record x { count = inc x.count }

unfoldable pub decrease : Button → Button
unfolding ◌-ℤ◌
decrease x = record x { count = dec x.count }

unfoldable pub set : ℕ → Bool → Button → Button
unfolding increase decrease
set b isbuttondown x =
    if x.button == b then (if isbuttondown then increase x else decrease x) else x

unfoldable pub reset : Button → Button
reset x = record x { count = pos 0 }

-- `PointingButton()` is the value 0.
unfoldable pub make_buttons : Button → ℕ
unfolding ◌+ℤ◌
make_buttons x = if is_pos (x.count +ℤ x.lock_count) then x.button else 0

unfoldable pub lock_increase : Button → Button
lock_increase x = record x { lock_count = pos 1 }

unfoldable pub lock_decrease : Button → Button
lock_decrease x = record x { lock_count = pos 0 }

unfoldable pub lock_toggle : Button → Button
lock_toggle x = record x { lock_count = if eqb_ℤ x.lock_count (pos 0) then pos 1 else pos 0 }
