-- ===== src/Direction.antt =====
-- `ScrollWheel::getScrollWheelFromDelta` and `PointingRelative::getPointingRelativeFromDelta` of
-- core/kext/KeyCode.hpp. The two classes number the directions alike.
use karabiner_cn.Base.{ℕ, ◌+◌, ◌*◌, ◌≡◌, Bool, ◌&&◌, ◌==◌, ltb, if◌then◌else◌, arith}
use karabiner_cn.Base.Int.{
  ℤ, pos, ◌-ℤ◌, is_pos, eqb_ℤ, pos_part, neg_part, -ℤ_parts, parts_exclusive,
}

-- src/bridge/generator/keycode/data/ScrollWheel.data and PointingRelative.data.
abbrev pub none : ℕ
none = 1

abbrev pub up : ℕ
up = 2

abbrev pub down : ℕ
down = 3

abbrev pub left : ℕ
left = 4

abbrev pub right : ℕ
right = 5

-- `x > 0 ? x : -x`.
abbrev pub abs : ℤ → ℕ
abs a = pos_part a + neg_part a

abbrev is_neg : ℤ → Bool
is_neg a = ltb 0 (neg_part a)

unfoldable pub get_scroll_wheel_from_delta : ℤ → ℤ → ℕ
get_scroll_wheel_from_delta fixed_delta1 fixed_delta2 =
    if eqb_ℤ fixed_delta1 (pos 0) && eqb_ℤ fixed_delta2 (pos 0)
    then none
    else if ltb (abs fixed_delta1) (abs fixed_delta2)
    then (if is_pos fixed_delta2 then left else right)
    else if is_pos fixed_delta1
    then up
    else down

unfoldable pub get_pointing_relative_from_delta : ℤ → ℤ → ℕ
get_pointing_relative_from_delta dx dy =
    if eqb_ℤ dx (pos 0) && eqb_ℤ dy (pos 0)
    then none
    else if ltb (abs dy) (abs dx)
    then (if ltb (abs dx) (abs dy * 3) then none else if is_neg dx then left else right)
    else if ltb (abs dy) (abs dx * 3)
    then none
    else if is_neg dy
    then up
    else down

abbrev pub opposite : ℕ → ℕ
opposite d =
    if d == up
    then down
    else if d == down
    then up
    else if d == left
    then right
    else if d == right
    then left
    else d

abbrev pub negate : ℤ → ℤ
negate a = pos 0 -ℤ a

-- A scroll or a move by the negated deltas is in the opposite direction, none being its own opposite.
pub direction-negate :
    (a b : ℤ)
    → (get_scroll_wheel_from_delta (negate a) (negate b)
        ≡ opposite (get_scroll_wheel_from_delta a b))
      × (get_pointing_relative_from_delta (negate a) (negate b)
          ≡ opposite (get_pointing_relative_from_delta a b))
unfolding get_scroll_wheel_from_delta get_pointing_relative_from_delta
direction-negate a b = (
  ground (
    arith,
    -ℤ_parts (pos 0) a,
    -ℤ_parts (pos 0) b,
    parts_exclusive a,
    parts_exclusive b,
    parts_exclusive (negate a),
    parts_exclusive (negate b),
  ),
  ground (
    arith,
    -ℤ_parts (pos 0) a,
    -ℤ_parts (pos 0) b,
    parts_exclusive a,
    parts_exclusive b,
    parts_exclusive (negate a),
    parts_exclusive (negate b),
  ),
)
