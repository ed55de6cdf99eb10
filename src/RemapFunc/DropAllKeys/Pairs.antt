-- ===== src/RemapFunc/DropAllKeys/Pairs.antt =====
-- `DropAllKeys` (core/kext/RemapFunc/DropAllKeys.cpp) cancels the key up of a key whose key down it
-- has canceled.
use karabiner_cn.Base.{
  ◌≡◌, refl, sym, ap, ◌∙◌, inl, inr, Bool, true, false, ◌||◌, List, [], ◌∷◌, ◌++◌, Option, none,
  some, arith, Bool-cases, All,
}
use karabiner_cn.EventOutputQueue
use karabiner_cn.FromEvent.{
  FromEvent, key, consumer_key, pointing_button, of_params, target_event, is_target_event,
}
use karabiner_cn.KeyCodeModifierFlagPairs.{Pair}
use karabiner_cn.Params.{
  ParamsBase, keyboard, keyboard_special, relative_pointer, iskeydown, is_repeat,
}
use karabiner_cn.RemapFunc.DropAllKeys.{
  State, found, erase_found, drop_key, drop_direction, cancel_kind, looks_at, cancel,
}

-- What is about a key is about the key of any event that it is about.
is_target_event-of_params :
    (e : FromEvent) (p q : ParamsBase)
    → is_target_event e p ≡ true
    → is_target_event e q ≡ is_target_event (of_params p) q
unfolding of_params is_target_event target_event
is_target_event-of_params (key k) (keyboard p) (keyboard q) h = ground (arith, h)
is_target_event-of_params (key k) (keyboard p) q h = ground (arith, h)
is_target_event-of_params (consumer_key k) (keyboard_special p) q h = ground (arith, h)
is_target_event-of_params (pointing_button k) (relative_pointer p) q h = ground (arith, h)
is_target_event-of_params _ _ _ h = ground (arith, h)

found-append :
    (q : ParamsBase) (xs ys : List FromEvent) → found q (xs ++ ys) ≡ (found q xs || found q ys)
unfolding found
found-append q [] ys = refl
found-append q (x ∷ xs) ys = ground (arith, found-append q xs ys)

-- The erasure for one event is not seen by an event of another key.
found-erase_found :
    (p q : ParamsBase) (es : List FromEvent)
    → is_target_event (of_params p) q ≡ false
    → found q (erase_found p es) ≡ found q es
unfolding found erase_found
found-erase_found p q [] h = refl
found-erase_found p q (e ∷ es) h = elim (Bool-cases (is_target_event e p)) [
  | inl t ↦ ground (arith, t, is_target_event-of_params e p q t, found-erase_found p q es h)
  | inr n ↦ ground (arith, n, found-erase_found p q es h)
]

found-drop_direction :
    (matched : Bool) (p q : ParamsBase) (kd : Option Bool) (dropped : List FromEvent)
    → is_target_event (of_params p) q ≡ false
    → found q (drop_direction matched p kd dropped).1 ≡ found q dropped
unfolding found
found-drop_direction matched p q none dropped h = refl
found-drop_direction matched p q (some true) dropped h =
    ground (arith, found-append q dropped (of_params p ∷ []), h)
found-drop_direction matched p q (some false) dropped h = found-erase_found p q dropped h

found-cancel_kind :
    (s : State) (p q : ParamsBase)
    → is_target_event (of_params p) q ≡ false
    → found q (cancel_kind s p).1 ≡ found q s.dropped
unfolding cancel_kind drop_key
found-cancel_kind s (keyboard p) q h = ground (
  arith,
  found-drop_direction s.modifier_matched (keyboard p) q (iskeydown (keyboard p)) s.dropped h,
)
found-cancel_kind s (keyboard_special p) q h = ground (
  arith,
  found-drop_direction s.modifier_matched (keyboard_special p) q (iskeydown (keyboard_special p))
      s.dropped h,
)
found-cancel_kind s p q h = refl

-- An item leaves it to the other keys whether they are dropped.
found-cancel :
    (pairs : List Pair) (s : State) (i : EventOutputQueue.Item) (q : ParamsBase)
    → is_target_event (of_params i.params) q ≡ false
    → found q (cancel pairs s i).1 ≡ found q s.dropped
unfolding cancel
found-cancel pairs s i q h = elim (Bool-cases (looks_at pairs s i)) [
  | inl y ↦ rw y (found-cancel_kind s i.params q h)
  | inr n ↦ rw n refl
]

-- Items one after another, each with the state that the rule is in then, but for the dropped keys,
-- which it has from the item before.
unfoldable pub run :
    List Pair → List (State × EventOutputQueue.Item) → List FromEvent → List FromEvent
unfolding cancel
run pairs [] dropped = dropped
run pairs ((s, i) ∷ rest) dropped =
    run pairs rest (cancel pairs (record s { dropped = dropped }) i).1

found-run :
    (pairs : List Pair) (xs : List (State × EventOutputQueue.Item)) (dropped : List FromEvent)
    (q : ParamsBase)
    → All (λ x. is_target_event (of_params x.1.params) q ≡ false) xs
    → found q (run pairs xs dropped) ≡ found q dropped
unfolding run
found-run pairs [] dropped q h = refl
found-run pairs ((s, i) ∷ rest) dropped q h =
    found-run pairs rest _ q h.1 ∙ found-cancel pairs (record s { dropped = dropped }) i q h.0

-- The kinds of keys that the rule drops.
unfoldable pub drops : State → ParamsBase → Bool
drops s (keyboard p) = s.drop_key
drops s (keyboard_special p) = s.drop_consumer_key
drops s p = false

drops-dropped :
    (s : State) (dropped : List FromEvent) (p : ParamsBase)
    → drops (record s { dropped = dropped }) p ≡ drops s p
unfolding drops
drops-dropped s dropped (keyboard p) = refl
drops-dropped s dropped (keyboard_special p) = refl
drops-dropped s dropped p = refl

cancel_kind-drops :
    (s : State) (p : ParamsBase)
    → drops s p ≡ true
    → cancel_kind s p ≡ drop_direction s.modifier_matched p (iskeydown p) s.dropped
unfolding cancel_kind drop_key drops
cancel_kind-drops s (keyboard p) k = rw k refl
cancel_kind-drops s (keyboard_special p) k = rw k refl
cancel_kind-drops s p k = cc

cancel-drops :
    (pairs : List Pair) (s : State) (i : EventOutputQueue.Item)
    → looks_at pairs s i ≡ true
    → drops s i.params ≡ true
    → cancel pairs s i ≡ drop_direction s.modifier_matched i.params (iskeydown i.params) s.dropped
unfolding cancel
cancel-drops pairs s i h k = rw h (cancel_kind-drops s i.params k)

-- A key down that is no repeat.
cancel-down :
    (pairs : List Pair) (s : State) (i : EventOutputQueue.Item) (q : ParamsBase)
    → looks_at pairs s i ≡ true
    → drops s i.params ≡ true
    → iskeydown i.params ≡ some true
    → is_repeat i.params ≡ false
    → is_target_event (of_params i.params) q ≡ true
    → found q s.dropped ≡ false
    → found q (cancel pairs s i).1 ≡ (cancel pairs s i).0
unfolding found
cancel-down pairs s i q h k d r t f =
    ap (λ x. found q x.1) e ∙ either s.modifier_matched ∙ ap (λ x. x.0) (sym e)
  where
    e : cancel pairs s i ≡ drop_direction s.modifier_matched i.params (some true) s.dropped
    e =
        cancel-drops pairs s i h k
        ∙ ap (λ kd. drop_direction s.modifier_matched i.params kd s.dropped) d

    either :
        (m : Bool)
        → found q (drop_direction m i.params (some true) s.dropped).1
          ≡ (drop_direction m i.params (some true) s.dropped).0
    either m = ground (arith, r, t, f, found-append q s.dropped (of_params i.params ∷ []))

-- A key down that is no repeat and the key up of the same key, both of a kind that the rule drops and
-- both looked at: if the key was not dropped before, and the items between the two are of other
-- keys, then the key up is canceled exactly if the key down was, whatever has become of the
-- modifiers and of the settings of the rule in the meantime.
pub cancel-up_as_down :
    (pairs : List Pair) (s s' : State) (i j : EventOutputQueue.Item)
    (between : List (State × EventOutputQueue.Item))
    → looks_at pairs s i ≡ true
    → looks_at pairs s' j ≡ true
    → drops s i.params ≡ true
    → drops s' j.params ≡ true
    → iskeydown i.params ≡ some true
    → is_repeat i.params ≡ false
    → iskeydown j.params ≡ some false
    → is_target_event (of_params i.params) j.params ≡ true
    → found j.params s.dropped ≡ false
    → All (λ x. is_target_event (of_params x.1.params) j.params ≡ false) between
    → (cancel pairs (record s' { dropped = run pairs between (cancel pairs s i).1 }) j).0
      ≡ (cancel pairs s i).0
unfolding looks_at
cancel-up_as_down pairs s s' i j between h h' k k' d r u t f o =
    ap (λ x. x.0) e
    ∙ found-run pairs between (cancel pairs s i).1 j.params o
    ∙ cancel-down pairs s i j.params h k d r t f
  where
    s2 : State
    s2 = record s' { dropped = run pairs between (cancel pairs s i).1 }

    e : cancel pairs s2 j ≡ drop_direction s'.modifier_matched j.params (some false) s2.dropped
    e =
        cancel-drops pairs s2 j h'
          (drops-dropped s' (run pairs between (cancel pairs s i).1) j.params ∙ k')
        ∙ ap (λ kd. drop_direction s'.modifier_matched j.params kd s2.dropped) u
