-- ===== src/FlagStatus.antt =====
-- `FlagStatus` of core/kext/Classes/FlagStatus.hpp and FlagStatus.cpp: one item of counters for each
-- registered modifier. An object is the list of its items. A method returns the items and the
-- `Board` of status messages, which all objects share.
pub mod Counter
pub mod Message
pub mod Loop
pub mod Balance
pub mod Query
pub mod Invariant
pub mod ScopedSetter
pub mod Notify
use karabiner_cn.Base.{
  ℕ, zero, suc, Bool, true, false, not, ◌&&◌, ◌||◌, List, [], ◌∷◌, ◌++◌, map, ◌==◌, ltb,
  if◌then◌else◌, length, is_include, replicate, any_of, all_of,
}
use karabiner_cn.Base.Int.{ℤ, pos, pos_part, ◌-ℤ◌, is_pos, eqb_ℤ, ltb_ℤ}
use karabiner_cn.Flags
use karabiner_cn.ModifierFlag
use karabiner_cn.KeyCodeModifierFlagPairs.{Pair, modifier_flags}
use karabiner_cn.StatusMessage.{Board}
use Counter.{Item, Method, sum, call}
use Message.{update_status_message}
use Loop.{for_items, visit}

-- `initialize`, over the table of modifiers.
unfoldable pub initialize : List Pair → List Item
unfolding Counter.initialize
initialize pairs = map Counter.initialize (modifier_flags pairs)

-- The constructor `FlagStatus(Flags)`.
unfoldable pub of_flags : List Pair → ℕ → List Item
unfolding initialize Counter.increase
of_flags pairs flags =
    map (λ x. if Flags.is_on flags x.flag then Counter.increase x else x) (initialize pairs)

-- `set(void)`, `set(KeyCode, Flags)` and `reset`: every item, then the status message.
unfoldable pub set : List Item → Board → List Item × Board
unfolding visit Counter.set
set items b = visit Counter.set items b

unfoldable pub set_key : List Pair → ℕ → ℕ → List Item → Board → List Item × Board
unfolding visit Counter.set_key
set_key pairs key flags items b = visit (Counter.set_key pairs key flags) items b

unfoldable pub reset : List Item → Board → List Item × Board
unfolding visit Counter.reset
reset items b = visit Counter.reset items b

-- `isOn(ModifierFlag)`: the first item of the modifier decides.
unfoldable pub is_on : List Item → ℕ → Bool
unfolding sum
is_on [] m = false
is_on (x ∷ xs) m = if x.flag == m then is_pos (sum x true) else is_on xs m

-- The first loop of `isOn(const Vector_ModifierFlag&)`: no listed modifier is off.
unfoldable pub all_on : List Item → List ℕ → Bool
unfolding is_on
all_on items [] = true
all_on items (m ∷ ms) =
    if m == ModifierFlag.zero
    then all_on items ms
    else if m == ModifierFlag.none
    then all_on items ms
    else is_on items m && all_on items ms

-- Its second loop, which runs if `NONE` is listed: no other modifier is on.
unfoldable pub only_listed : List Item → List ℕ → Bool
unfolding sum
only_listed [] ms = true
only_listed (x ∷ xs) ms =
    not (is_pos (sum x true) && not (is_include ms x.flag)) && only_listed xs ms

unfoldable pub are_on : List Item → List ℕ → Bool
unfolding all_on only_listed
are_on items ms = all_on items ms && (not (is_include ms ModifierFlag.none) || only_listed items ms)

-- The loop of `isLocked` and `isStuck`, by the counter that each reads.
unfoldable pub all_counted : (Item → ℤ) → List Item → List ℕ → Bool
all_counted counter [] ms = true
all_counted counter (x ∷ xs) ms =
    (x.flag == ModifierFlag.zero
      || x.flag == ModifierFlag.none
      || not (is_include ms x.flag && not (is_pos (counter x))))
    && all_counted counter xs ms

abbrev pub is_locked : List Item → List ℕ → Bool
is_locked = all_counted (λ x. x.lock_count)

abbrev pub is_stuck : List Item → List ℕ → Bool
is_stuck = all_counted (λ x. x.sticky_count)

-- The loop of `makeFlags`.
unfoldable pub make_flags_from : ℕ → List Item → ℕ
unfolding sum Flags.add
make_flags_from flags [] = flags
make_flags_from flags (x ∷ xs) =
    make_flags_from (if is_pos (sum x false) then Flags.add flags x.flag else flags) xs

abbrev pub make_flags : List Item → ℕ
make_flags = make_flags_from 0

-- `getFlag(index)`.
unfoldable pub get_flag : List Item → ℕ → ℕ
get_flag [] index = ModifierFlag.zero
get_flag (x ∷ xs) zero = x.flag
get_flag (x ∷ xs) (suc index) = get_flag xs index

-- The status message is updated after each item that the first six methods change if it is the
-- caps lock item, and after each item that the others change.
abbrev pub notifies : Method → Item → Bool
notifies Method.increases x = x.flag == ModifierFlag.capslock
notifies Method.decreases x = x.flag == ModifierFlag.capslock
notifies Method.temporary_increase x = x.flag == ModifierFlag.capslock
notifies Method.temporary_decrease x = x.flag == ModifierFlag.capslock
notifies Method.lazy_increase x = x.flag == ModifierFlag.capslock
notifies Method.lazy_decrease x = x.flag == ModifierFlag.capslock
notifies method x = true

-- `METHOD(ModifierFlag)`, `METHOD(ModifierFlag, const Vector_ModifierFlag&)` and
-- `METHOD(const Vector_ModifierFlag&)`.
unfoldable pub method_flag : Method → ℕ → List Item → Board → List Item × Board
unfolding for_items call
method_flag method m items b =
    for_items (λ x. m == x.flag) (call method) (notifies method) [] items b

unfoldable pub method_flag_vector : Method → ℕ → List ℕ → List Item → Board → List Item × Board
unfolding for_items call
method_flag_vector method m ms items b =
    for_items (λ x. m == x.flag || is_include ms x.flag) (call method) (notifies method) [] items b

unfoldable pub method_vector : Method → List ℕ → List Item → Board → List Item × Board
unfolding for_items call
method_vector method ms items b =
    for_items (λ x. is_include ms x.flag) (call method) (notifies method) [] items b

-- `STICKY_ACTIVE_MODIFIERS_METHOD`, for toggle, increase and decrease.
unfoldable pub sticky_active_modifiers : Method → List Item → Board → List Item × Board
unfolding visit call sum
sticky_active_modifiers method items b =
    visit (λ x. if is_pos (sum x true) then call method x else x) items b

unfoldable pub sticky_clear : List Item → Board → List Item × Board
unfolding visit call
sticky_clear items b = visit (call Method.sticky_decrease) items b

unfoldable pub lock_clear : List Item → Board → List Item × Board
unfolding visit call
lock_clear items b =
    visit (λ x. if eqb_ℤ x.lock_count (pos 0) then x else call Method.lock_decrease x) items b

unfoldable pub negative_lock_clear : List Item → Board → List Item × Board
unfolding visit call
negative_lock_clear items b =
    visit
      (λ x. if eqb_ℤ x.negative_lock_count (pos 0) then x else call Method.negative_lock_decrease x)
      items b

-- These two do not touch the status message.
unfoldable pub lazy_enable : List Item → List Item
unfolding Counter.lazy_enable
lazy_enable = map Counter.lazy_enable

unfoldable pub lazy_disable_if_off : List Item → List Item
unfolding Counter.lazy_disable_if_off
lazy_disable_if_off = map Counter.lazy_disable_if_off

-- The loop of `subtract` over two vectors of one size.
unfoldable pub subtract_items : List Item → List Item → List ℕ
unfolding sum ◌-ℤ◌
subtract_items [] ys = []
subtract_items (x ∷ xs) [] = []
subtract_items (x ∷ xs) (y ∷ ys) =
    replicate (pos_part (sum x true -ℤ sum y true)) x.flag ++ subtract_items xs ys

-- `subtract(other, modifierFlags)`: the result is what the vector holds at the end.
unfoldable pub subtract : List Item → List Item → List ℕ
unfolding subtract_items
subtract items other = if length items == length other then subtract_items items other else []
