-- ===== src/PressingPhysicalKeys/Laws.antt =====
-- What `PressingPhysicalKeys::update` (core/kext/Classes/PressingPhysicalKeys.cpp) counts.
use karabiner_cn.Base.{
  ℕ, suc, ◌+◌, ◌-◌, ◌≡◌, refl, Bool, true, false, not, ◌||◌, List, [], ◌∷◌, ◌++◌, Option, none,
  some, arith, if◌then◌else◌,
}
use karabiner_cn.FromEvent.{
  FromEvent, key, consumer_key, pointing_button, of_params, is_target_event, target_event,
}
use karabiner_cn.Params.{ParamsBase, keyboard, keyboard_special, relative_pointer, iskeydown}
use karabiner_cn.PressingPhysicalKeys.{is_capslock, remove_target, change, update}

-- How many items are of the key of an event.
unfoldable pub held : ParamsBase → List FromEvent → ℕ
held p [] = 0
held p (e ∷ es) = if is_target_event e p then suc (held p es) else held p es

held-append : (p : ParamsBase) (xs ys : List FromEvent) → held p (xs ++ ys) ≡ held p xs + held p ys
unfolding held
held-append p [] ys = omega arith
held-append p (x ∷ xs) ys = ground (arith, held-append p xs ys)

-- An object of the key of one event is of the key of another one only if the two have one key.
other_key :
    (e : FromEvent) (p q : ParamsBase)
    → is_target_event (of_params p) q ≡ false
    → is_target_event e p ≡ true
    → is_target_event e q ≡ false
unfolding of_params is_target_event target_event
other_key (key k) (keyboard p) (keyboard q) h t = ground arith
other_key (consumer_key k) (keyboard_special p) (keyboard_special q) h t = ground arith
other_key (pointing_button k) (relative_pointer p) (relative_pointer q) h t = ground arith
other_key _ _ _ h t = ground arith

held-remove_same :
    (allow : Bool) (p : ParamsBase) (es : List FromEvent)
    → held p (remove_target allow p es) ≡ (if allow then held p es - 1 else 0)
unfolding held remove_target
held-remove_same true p [] = refl
held-remove_same false p [] = refl
held-remove_same allow p (e ∷ es) = ground (arith, held-remove_same allow p es)

held-remove_other :
    (allow : Bool) (p q : ParamsBase) (es : List FromEvent)
    → is_target_event (of_params p) q ≡ false
    → held q (remove_target allow p es) ≡ held q es
unfolding held remove_target
held-remove_other allow p q [] h = refl
held-remove_other allow p q (e ∷ es) h =
    ground (arith, held-remove_other allow p q es h, other_key e p q h)

-- What a change by an event makes of the number of items of the key of the event q.
abbrev pub expected : Bool → ParamsBase → Option Bool → ParamsBase → ℕ → ℕ
expected allow p none q n = n
expected allow p (some is_down) q n =
    if is_capslock p || not (is_target_event (of_params p) q)
    then n
    else if is_down
    then suc n
    else if allow
    then n - 1
    else 0

held-target :
    (p q : ParamsBase)
    → held q (of_params p ∷ []) ≡ (if is_target_event (of_params p) q then 1 else 0)
unfolding held
held-target p q = refl

same_target :
    (e : FromEvent) (p q : ParamsBase)
    → is_target_event (of_params p) q ≡ true
    → is_target_event e q ≡ is_target_event e p
unfolding of_params is_target_event target_event
same_target (key k) (keyboard p) (keyboard q) h = ground arith
same_target (consumer_key k) (keyboard_special p) (keyboard_special q) h = ground arith
same_target (pointing_button k) (relative_pointer p) (relative_pointer q) h = ground arith
same_target _ _ _ h = ground arith

held_same :
    (p q : ParamsBase) (es : List FromEvent)
    → is_target_event (of_params p) q ≡ true
    → held q es ≡ held p es
unfolding held
held_same p q [] h = refl
held_same p q (e ∷ es) h = ground (arith, held_same p q es h, same_target e p q h)

held-change :
    (allow : Bool) (p : ParamsBase) (k : Option Bool) (q : ParamsBase) (es : List FromEvent)
    → held q (change allow p k es) ≡ expected allow p k q (held q es)
unfolding change
held-change allow p none q es = refl
held-change allow p (some true) q es =
    ground (arith, held-append q es (of_params p ∷ []), held-target p q)
held-change allow p (some false) q es = ground (
  arith,
  held-remove_same allow p es,
  held-remove_other allow p q es,
  held_same p q es,
  held_same p q (remove_target allow p es),
)

-- `update` leaves the number of items of a key alone for an event of another key, for an event that is
-- neither down nor up, and for the hardware caps lock. Otherwise a down event adds one, and an up
-- event takes one away, or all of them unless several devices may press the same key.
pub held-update :
    (allow : Bool) (p q : ParamsBase) (es : List FromEvent)
    → held q (update allow p es) ≡ expected allow p (iskeydown p) q (held q es)
unfolding update
held-update allow p q es = held-change allow p (iskeydown p) q es
