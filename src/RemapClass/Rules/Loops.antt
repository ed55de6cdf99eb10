-- ===== src/RemapClass/Rules/Loops.antt =====
-- The loops of `RemapClass` over its items and of `RemapClassManager` over the enabled classes
-- (core/kext/RemapClass.cpp), and `cancelEventOutputQueueItems`.
use karabiner_cn.Base.{
  ℕ, ◌+◌, Bool, true, false, not, ◌&&◌, ◌||◌, List, [], ◌∷◌, none, some, if◌then◌else◌,
}
use karabiner_cn.EventOutputQueue
use karabiner_cn.Params.{ParamsBase, iskeydown, is_repeat}
use karabiner_cn.RemapClass.{RemapClass, Item}
use karabiner_cn.RemapClass.Rules.{
  ItemId, Active, Functions, Remapping, find, normal, simultaneousbuttonpresses, is_blocked,
  is_blocked_keyup, remap_item, remap_simultaneous_item, set_keyboard_type_item,
  force_num_lock_on_item, is_target_item, passes_through_item,
}

-- A function of an item, for the items of a class from a place on.
abbrev pub for_items {ℓ} : {A : Type ℓ} → (ItemId → Item → A → A) → ℕ → ℕ → List Item → A → A
for_items f configindex n [] a = a
for_items f configindex n (i ∷ is) a = for_items f configindex (n + 1) is (f (configindex, n) i a)

-- The same for all items of a class.
abbrev pub for_class {ℓ} : {A : Type ℓ} → (ItemId → Item → A → A) → RemapClass → A → A
for_class f c a = for_items f c.configindex 0 c.items a

-- The same for the classes of a vector.
abbrev pub for_classes {ℓ} : {A : Type ℓ} → (ItemId → Item → A → A) → List RemapClass → A → A
for_classes f [] a = a
for_classes f (c ∷ cs) a = for_classes f cs (for_class f c a)

-- `hasActiveItem`.
unfoldable pub has_active_item : List Active → RemapClass → Bool
unfolding find
has_active_item active c =
    for_class
      (λ id i found. found || find id normal active || find id simultaneousbuttonpresses active) c
      false

-- `RemapClassManager::isPassThroughEnabled`, over `enabled_remapclasses_`.
unfoldable pub is_pass_through_enabled : {S : Type 0} → Functions S → List RemapClass → S → Bool
unfolding passes_through_item
is_pass_through_enabled f enabled s =
    for_classes (λ id i found. found || passes_through_item f id i s) enabled false

-- `RemapClassManager::remap`.
unfoldable pub remap :
    {S : Type 0} → Functions S → List RemapClass → ParamsBase → Remapping S → Remapping S
unfolding is_pass_through_enabled remap_item
remap f enabled p x =
    let pass_through = is_pass_through_enabled f enabled x.outer in
    for_classes (λ id i y. (remap_item f id i pass_through p y).1) enabled x

-- `remap_setkeyboardtype`.
unfoldable pub remap_setkeyboardtype : {S : Type 0} → Functions S → List RemapClass → ℕ × S → ℕ × S
unfolding is_pass_through_enabled set_keyboard_type_item
remap_setkeyboardtype f enabled (keyboard_type, s) =
    let pass_through = is_pass_through_enabled f enabled s in
    for_classes (λ id i y. set_keyboard_type_item f id i pass_through y) enabled (keyboard_type, s)

-- `remap_forcenumlockon`.
unfoldable pub remap_forcenumlockon : {S : Type 0} → Functions S → List RemapClass → S → S
unfolding is_pass_through_enabled force_num_lock_on_item
remap_forcenumlockon f enabled s =
    let pass_through = is_pass_through_enabled f enabled s in
    for_classes (λ id i y. force_num_lock_on_item f id i pass_through y) enabled s

-- `isTargetEventForBlockUntilKeyUp`.
unfoldable pub is_target_event_for_block_until_key_up :
    {S : Type 0} → Functions S → List RemapClass → ParamsBase → S → Bool
unfolding is_pass_through_enabled is_target_item
is_target_event_for_block_until_key_up f enabled p s =
    let pass_through = is_pass_through_enabled f enabled s in
    for_classes (λ id i found. found || is_target_item f id i pass_through p s) enabled false

-- `remap_simultaneouskeypresses`: whether the queue was changed, the active items and the rest.
unfoldable pub remap_simultaneouskeypresses :
    {S : Type 0} → Functions S → List RemapClass → Bool → List Active × S → Bool × List Active × S
unfolding is_pass_through_enabled remap_simultaneous_item
remap_simultaneouskeypresses f enabled is_down (active, s) =
    let pass_through = is_pass_through_enabled f enabled s in
    for_classes
      (λ id i y.
        let r = remap_simultaneous_item f id i is_down pass_through (y.1, y.2) in
        (y.0 || r.0, r.1, r.2))
      enabled (false, active, s)

-- Whether an item of the output queue is shown to the processor: at a key down that is no repeat the
-- class is enabled and the rule not blocked, and otherwise the rule is not blocked for key ups.
unfoldable pub shows : {S : Type 0} → Functions S → ItemId → Item → ParamsBase → S → Bool
unfolding iskeydown is_repeat is_blocked is_blocked_keyup
shows f id i p s =
    let is_down : Bool = elim (iskeydown p) [ none ↦ true | some is_down ↦ is_down ] in
    if is_down && not (is_repeat p)
    then f.enabled id.0 s && not (is_blocked (f.current s) i)
    else not (is_blocked_keyup (f.current s) i)

-- The loop of `cancelEventOutputQueueItems` of a rule over the output queue.
unfoldable pub cancel_items :
    {S : Type 0}
    → Functions S
    → ItemId
    → Item
    → List EventOutputQueue.Item × S
    → List EventOutputQueue.Item × S
unfolding shows
cancel_items f id i ([], s) = ([], s)
cancel_items f id i (q ∷ qs, s) =
    let r = if shows f id i q.params s then f.cancels id q s else (false, s) in
    let rest = cancel_items f id i (qs, r.1) in
    (record q { canceled = q.canceled || r.0 } ∷ rest.0, rest.1)

unfoldable pub cancel_item :
    {S : Type 0}
    → Functions S
    → ItemId
    → Item
    → Bool
    → List EventOutputQueue.Item × S
    → List EventOutputQueue.Item × S
unfolding cancel_items
cancel_item f id i pass_through x = elim i.processor [
  | none ↦ x
  | some p ↦ if pass_through && not p.ignore_pass_through then x else cancel_items f id i x
]

-- `RemapClassManager::cancelEventOutputQueueItems`.
unfoldable pub cancel_event_output_queue_items :
    {S : Type 0}
    → Functions S
    → List RemapClass
    → List EventOutputQueue.Item × S
    → List EventOutputQueue.Item × S
unfolding is_pass_through_enabled cancel_item
cancel_event_output_queue_items f enabled (queue, s) =
    let pass_through = is_pass_through_enabled f enabled s in
    for_classes (λ id i y. cancel_item f id i pass_through y) enabled (queue, s)
