-- ===== src/RemapClass/Rules.antt =====
-- `RemapClass::Item`, `RemapClass::ActiveItems` and the loops of `RemapClass` and `RemapClassManager`
-- over the rules (core/kext/RemapClass.hpp and RemapClass.cpp): which rules get an event. A pointer
-- to a rule is the config index of its class and its place among the items of the class.
pub mod Balance
pub mod Loops
use karabiner_cn.Base.{
  ℕ, zero, suc, ◌+◌, Bool, true, false, not, ◌&&◌, ◌||◌, List, [], ◌∷◌, ◌++◌, Option, none, some,
  ◌==◌, if◌then◌else◌, get_elem?,
}
use karabiner_cn.Bridge
use karabiner_cn.EventOutputQueue
use karabiner_cn.FromEvent.{FromEvent, is_target_down_event, is_target_up_event}
use karabiner_cn.Params.{ParamsBase, iskeydown, is_repeat}
use karabiner_cn.RemapClass.{RemapClass, Item, Processor}
use karabiner_cn.RemapFilter
use karabiner_cn.RemapFilter.{Current, Filter}

abbrev pub ItemId : Type 0
ItemId = ℕ × ℕ

-- `ActiveItems::Item::Type` and `ActiveItems::Item`.
pub data ActiveType : Type 0 where
  normal simultaneousbuttonpresses : ActiveType

abbrev pub Active : Type 0
Active = ItemId × ActiveType

abbrev pub same_id : ItemId → ItemId → Bool
same_id (c, n) (d, m) = c == d && n == m

abbrev pub same_type : ActiveType → ActiveType → Bool
same_type normal normal = true
same_type simultaneousbuttonpresses simultaneousbuttonpresses = true
same_type t u = false

abbrev pub is_active : ItemId → ActiveType → Active → Bool
is_active id t (id', t') = same_id id' id && same_type t' t

-- `ActiveItems::find`, `push_back`, `erase` and `erase_all`.
unfoldable pub find : ItemId → ActiveType → List Active → Bool
find id t [] = false
find id t (x ∷ xs) = let rest = find id t xs in is_active id t x || rest

unfoldable pub push_back : ItemId → ActiveType → List Active → List Active
push_back id t xs = xs ++ ((id, t) ∷ [])

unfoldable pub erase : ItemId → ActiveType → List Active → List Active
erase id t [] = []
erase id t (x ∷ xs) = let rest = erase id t xs in if is_active id t x then xs else x ∷ rest

unfoldable pub erase_all : ItemId → List Active → List Active
erase_all id [] = []
erase_all id (x ∷ xs) = let rest = erase_all id xs in if same_id x.0 id then rest else x ∷ rest

-- `RemapSimultaneousKeyPressesResult`.
pub data SimultaneousResult : Type 0 where
  not_changed applied queue_changed : SimultaneousResult

-- What the rules call, for a state that the processors and all they call share: the virtual
-- functions of `RemapFuncBase`, by the rule, and what the filters read. The truth value with which
-- `remap` is called and answers besides its own is `isremapped`. `enabled` is that of a class, which
-- a processor changes through `VK_CONFIG`.
pub record Functions (S : Type 0) : Type 0 where
  pub current : S → Current
  pub enabled : ℕ → S → Bool
  pub remap : ItemId → ParamsBase → Bool → S → Bool × Bool × S
  pub remap_simultaneous_key_presses : ItemId → S → SimultaneousResult × S
  pub remap_set_keyboard_type : ItemId → ℕ → S → ℕ × S
  pub remap_force_num_lock_on : ItemId → S → S
  pub get_block_until_key_up_from_event : ItemId → S → Option FromEvent
  pub cancels : ItemId → EventOutputQueue.Item → S → Bool × S

-- `isblocked` and `isblocked_keyup` of an item.
unfoldable pub any_filter : (Filter → Bool) → List Filter → Bool
any_filter test [] = false
any_filter test (f ∷ fs) = let rest = any_filter test fs in test f || rest

unfoldable pub is_blocked : Current → Item → Bool
unfolding any_filter RemapFilter.isblocked
is_blocked c i = any_filter (RemapFilter.isblocked c) i.filters

unfoldable pub is_blocked_keyup : Current → Item → Bool
unfolding any_filter RemapFilter.isblocked_keyup
is_blocked_keyup c i = any_filter (RemapFilter.isblocked_keyup c) i.filters

-- The guards at a key down, and at a key up. Without a processor nothing is done.
unfoldable pub passes_down : {S : Type 0} → Functions S → ItemId → Item → Bool → S → Bool
unfolding is_blocked
passes_down f id i pass_through s = elim i.processor [
  | none ↦ false
  | some p ↦
      not (pass_through && not p.ignore_pass_through)
      && f.enabled id.0 s
      && not (is_blocked (f.current s) i)
]

unfoldable pub passes_up :
    {S : Type 0} → Functions S → ItemId → Item → ActiveType → List Active → S → Bool
unfolding is_blocked_keyup find
passes_up f id i t active s = elim i.processor [
  | none ↦ false
  | some p ↦ find id t active && not (is_blocked_keyup (f.current s) i)
]

-- What `remap` of the rules reads and changes: `isremapped` of the parameters, the active items and
-- what is behind the functions.
pub record Remapping (S : Type 0) : Type 0 where
  pub isremapped : Bool
  pub active : List Active
  pub outer : S

-- Whether `RemapClass::Item::remap` calls the processor.
unfoldable pub reaches :
    {S : Type 0} → Functions S → ItemId → Item → Bool → ParamsBase → Remapping S → Bool
unfolding iskeydown passes_down passes_up
reaches f id i pass_through p x = elim (iskeydown p) [
  | some false ↦ passes_up f id i normal x.active x.outer
  | _ ↦ passes_down f id i pass_through x.outer
]

-- The active items behind an event that the processor has handled. Those events that are neither a
-- key down nor a key up leave them.
unfoldable pub update_active : ItemId → ActiveType → Option Bool → List Active → List Active
unfolding push_back erase
update_active id t none active = active
update_active id t (some true) active = push_back id t active
update_active id t (some false) active = erase id t active

-- `RemapClass::Item::remap`, with whether the processor was called and has handled the event.
unfoldable pub remap_item :
    {S : Type 0}
    → Functions S
    → ItemId
    → Item
    → Bool
    → ParamsBase
    → Remapping S
    → Bool × Remapping S
unfolding reaches update_active iskeydown
remap_item f id i pass_through p x =
    let r = f.remap id p x.isremapped x.outer in
    if reaches f id i pass_through p x
    then (
      r.0,
      record {
        isremapped = r.1;
        active = if r.0 then update_active id normal (iskeydown p) x.active else x.active;
        outer = r.2;
      },
    )
    else (false, x)

-- `RemapClass::Item::remap_SimultaneousKeyPresses`.
unfoldable pub remap_simultaneous_item :
    {S : Type 0}
    → Functions S
    → ItemId
    → Item
    → Bool
    → Bool
    → List Active × S
    → Bool × List Active × S
unfolding passes_down passes_up update_active
remap_simultaneous_item f id i is_down pass_through (active, s) =
    if (if is_down
      then passes_down f id i pass_through s
      else passes_up f id i simultaneousbuttonpresses active s)
    then (let r = f.remap_simultaneous_key_presses id s in
        elim r.0 [
          | not_changed ↦ (false, active, r.1)
          | applied ↦ (true, update_active id simultaneousbuttonpresses (some is_down) active, r.1)
          | queue_changed ↦ (true, active, r.1)
        ])
    else (false, active, s)

-- `remap_setkeyboardtype` and `remap_forcenumlockon` of an item.
unfoldable pub set_keyboard_type_item :
    {S : Type 0} → Functions S → ItemId → Item → Bool → ℕ × S → ℕ × S
unfolding passes_down
set_keyboard_type_item f id i pass_through (keyboard_type, s) =
    if passes_down f id i pass_through s
    then f.remap_set_keyboard_type id keyboard_type s
    else (keyboard_type, s)

unfoldable pub force_num_lock_on_item : {S : Type 0} → Functions S → ItemId → Item → Bool → S → S
unfolding passes_down
force_num_lock_on_item f id i pass_through s =
    if passes_down f id i pass_through s then f.remap_force_num_lock_on id s else s

-- `isTargetEventForBlockUntilKeyUp` of an item.
unfoldable pub is_target_item :
    {S : Type 0} → Functions S → ItemId → Item → Bool → ParamsBase → S → Bool
unfolding passes_down is_target_down_event is_target_up_event
is_target_item f id i pass_through p s =
    if passes_down f id i pass_through s
    then elim (f.get_block_until_key_up_from_event id s) [
      | none ↦ false
      | some from ↦ is_target_down_event from p || is_target_up_event from p
    ]
    else false

-- `isPassThroughEnabled` of an item.
unfoldable pub passes_through_item : {S : Type 0} → Functions S → ItemId → Item → S → Bool
unfolding is_blocked
passes_through_item f id i s = elim i.processor [
  | none ↦ false
  | some p ↦
      not (is_blocked (f.current s) i) && f.enabled id.0 s && p.type == Bridge.remaptype_passthrough
]
