-- ===== src/KeyboardRepeat/Laws.antt =====
-- The state machine of `KeyboardRepeat` (core/kext/Classes/KeyboardRepeat.cpp).
use karabiner_cn.Base.{
  ℕ, ◌≤◌, ◌≡◌, refl, ◌∙◌, ◌≢◌, true, false, List, [], ◌∷◌, some, ◌==◌, arith, if◌then◌else◌,
}
use karabiner_cn.EventType
use karabiner_cn.KeyCode
use karabiner_cn.KeyCodeModifierFlagPairs.{Pair}
use karabiner_cn.Params.{ParamsBase, keyboard, make_keyboard_event}
use karabiner_cn.KeyboardRepeat.{
  State, succ_id, cancel, set_up, set_key, set_consumer, primitive_add_key, primitive_add_consumer,
  primitive_add_button, primitive_start, fire_timer_callback, max_keyboardrepeatid,
}

-- A call that changes the state from outside, or the timer.
pub data Call : Type 0 where
  cancels fires : Call
  adds_key : ℕ → ℕ → ℕ → ℕ → Call
  adds_consumer : ℕ → ℕ → ℕ → Call
  adds_button : ℕ → Call
  starts : ℕ → ℕ → ℕ → Call
  sets_key : ℕ → ℕ → ℕ → ℕ → ℕ → ℕ → ℕ → Call
  sets_consumer : ℕ → ℕ → ℕ → ℕ → ℕ → ℕ → Call

unfoldable pub step : List Pair → Call → State → State
step pairs cancels s = cancel s
step pairs fires s = (fire_timer_callback pairs s).1
step pairs (adds_key e f k t) s = primitive_add_key pairs e f k t s
step pairs (adds_consumer e f k) s = primitive_add_consumer e f k s
step pairs (adds_button b) s = primitive_add_button b s
step pairs (starts a d r) s = primitive_start a d r s
step pairs (sets_key e f k t a d r) s = set_key pairs e f k t a d r s
step pairs (sets_consumer e f k a d r) s = set_consumer e f k a d r s

-- The id stays in its range.
step-id :
    (pairs : List Pair) (c : Call) (s : State)
    → s.id ≤ max_keyboardrepeatid
    → (step pairs c s).id ≤ max_keyboardrepeatid
unfolding step succ_id cancel set_up set_key set_consumer primitive_add_key primitive_add_consumer
    primitive_add_button primitive_start fire_timer_callback
step-id pairs (sets_key e f k t a d r) s h = ground arith
step-id pairs _ s h = ground arith

unfoldable pub run : List Pair → List Call → State → State
unfolding step
run pairs [] s = s
run pairs (c ∷ cs) s = run pairs cs (step pairs c s)

run-id_range :
    (pairs : List Pair) (cs : List Call) (s : State)
    → s.id ≤ max_keyboardrepeatid
    → (run pairs cs s).id ≤ max_keyboardrepeatid
unfolding run
run-id_range pairs [] s h = h
run-id_range pairs (c ∷ cs) s h = run-id_range pairs cs (step pairs c s) (step-id pairs c s h)

cancel-id : (s : State) → s.id ≤ max_keyboardrepeatid → (cancel s).id ≢ s.id
unfolding cancel succ_id
cancel-id s h = ground arith

-- After any calls from a state with the id in its range, the id is in its range, so that a client
-- that has kept it sees that it is another one after a further `cancel`.
pub run-id :
    (pairs : List Pair) (cs : List Call) (s : State)
    → s.id ≤ max_keyboardrepeatid
    → let now = run pairs cs s in (now.id ≤ max_keyboardrepeatid) × ((cancel now).id ≢ now.id)
run-id pairs cs s h =
    let range = run-id_range pairs cs s h in (range, cancel-id (run pairs cs s) range)

-- The state behind `set` of a key down.
abbrev pub after_down : List Pair → ℕ → ℕ → ℕ → ℕ → ℕ → ℕ → State → State
after_down pairs flags k keyboard_type autogen_id delay key_repeat s =
    set_key pairs EventType.down flags k keyboard_type autogen_id delay key_repeat s

after_down_lem :
    (pairs : List Pair) (flags k keyboard_type autogen_id delay key_repeat : ℕ) (s : State)
    → k ≢ KeyCode.vk_none
    → let held = after_down pairs flags k keyboard_type autogen_id delay key_repeat s in
      (held.queue
        ≡ keyboard (make_keyboard_event pairs EventType.down flags k keyboard_type true) ∷ [])
      × (held.timer ≡ some delay)
unfolding set_key cancel succ_id primitive_add_key primitive_start
after_down_lem pairs flags k keyboard_type autogen_id delay key_repeat s h =
    let e : (k == KeyCode.vk_none) ≡ false = ground arith in rw e (refl, refl)

set_up-one :
    (pairs : List Pair) (et flags k kt k_up : ℕ) (q : List ParamsBase) (s : State)
    → q ≡ keyboard (make_keyboard_event pairs et flags k kt true) ∷ []
    → set_up k_up q s ≡ (if k_up == k then cancel s else s)
unfolding set_up make_keyboard_event
set_up-one pairs et flags k kt k_up q s e = rw e refl

set_key-up :
    (pairs : List Pair) (flags k keyboard_type autogen_id delay key_repeat : ℕ) (s : State)
    → k ≢ KeyCode.vk_none
    → set_key pairs EventType.up flags k keyboard_type autogen_id delay key_repeat s
      ≡ set_up k s.queue s
unfolding set_key
set_key-up pairs flags k keyboard_type autogen_id delay key_repeat s h =
    let e : (k == KeyCode.vk_none) ≡ false = ground arith in rw e refl

-- A key down makes that key alone repeat, with the timer armed with its delay, whatever repeated
-- before; a key up behind it ends the repeating if it is of that key and changes nothing if it is
-- of another one.
pub set_key_down_up :
    (pairs : List Pair) (flags k keyboard_type autogen_id delay key_repeat : ℕ)
    (flags_up k_up keyboard_type_up autogen_id_up delay_up key_repeat_up : ℕ) (s : State)
    → k ≢ KeyCode.vk_none
    → k_up ≢ KeyCode.vk_none
    → let held = after_down pairs flags k keyboard_type autogen_id delay key_repeat s in
      (held.queue
        ≡ keyboard (make_keyboard_event pairs EventType.down flags k keyboard_type true) ∷ [])
      × (held.timer ≡ some delay)
      × (set_key pairs EventType.up flags_up k_up keyboard_type_up autogen_id_up delay_up
            key_repeat_up held
          ≡ (if k_up == k then cancel held else held))
set_key_down_up pairs flags k kt a d r flags_up k_up kt_up a_up d_up r_up s h h_up =
    let held = after_down pairs flags k kt a d r s in
    let down = after_down_lem pairs flags k kt a d r s h in
    (
      down.0,
      down.1,
      set_key-up pairs flags_up k_up kt_up a_up d_up r_up held h_up
          ∙ set_up-one pairs EventType.down flags k kt k_up held.queue held down.0,
    )
