-- ===== src/Tests/Keys.antt =====
-- Runs of the theorems on keys, what they press and what they repeat.
use karabiner_cn.Base.{
  ℕ, ◌≡◌, refl, ◌≢◌, ◌≤◌, inl, inr, true, false, ◌&&◌, ◌||◌, List, [], ◌∷◌, none, some, arith,
  is_include, if◌then◌else◌,
}
use karabiner_cn.EventType
use karabiner_cn.Flags
use karabiner_cn.FnKeyHack.{
  fnkeyhack, normalize_key, reverse_normalize_key, run_normalize, run_both, KeyEvent, numpad_keys,
  cursor_keys,
}
use karabiner_cn.FnKeyHack.Laws.{normalize_key-up_as_down, run_both_lem, InSync}
use karabiner_cn.FnKeyHack.Numpad.{reverse_normalize_key-numpad}
use karabiner_cn.FromEvent
use karabiner_cn.FromEvent.{change_pressing_state, erase_all, find}
use karabiner_cn.FromEvent.Laws.{change_pressing_state_lem, erase_all_lem, count, accepts}
use karabiner_cn.KeyCode
use karabiner_cn.KeyboardRepeat.{State, set_key, cancel}
use karabiner_cn.KeyboardRepeat.Laws.{run-id, run, set_key_down_up, sets_key, cancels, after_down}
use karabiner_cn.ModifierFlag
use karabiner_cn.Params.{keyboard, make_keyboard_event, iskeydown}
use karabiner_cn.PressingPhysicalKeys.{update}
use karabiner_cn.PressingPhysicalKeys.Laws.{held-update, held, expected}
use karabiner_cn.Tests.{pairs, shift_items, key_event}

-- Fn and page up go down, fn goes up, and page up goes up.
abbrev fn_bit : ℕ
fn_bit = 0x800000

normalize_key-up_as_down_example :
    let pressed = normalize_key pairs KeyCode.pageup fn_bit EventType.down fnkeyhack in
    (normalize_key pairs KeyCode.pageup 0 EventType.up (
      run_normalize pairs
        (record { key = KeyCode.fn; flags = 0; event_type = EventType.modify } ∷ [])
        pressed.2)).0
    ≡ pressed.0
normalize_key-up_as_down_example =
    normalize_key-up_as_down pairs KeyCode.pageup fn_bit 0
      (record { key = KeyCode.fn; flags = 0; event_type = EventType.modify } ∷ []) fnkeyhack refl
      ((λ e. omega (arith, e)), tt)

abbrev home_events : List KeyEvent
home_events =
    record { key = KeyCode.home; flags = fn_bit; event_type = EventType.down }
    ∷ record { key = KeyCode.home; flags = 0; event_type = EventType.up }
    ∷ []

run_both_lem_example :
    ((run_both pairs home_events fnkeyhack).0 ≡ KeyCode.home ∷ KeyCode.home ∷ [])
    × InSync (run_both pairs home_events fnkeyhack).1
run_both_lem_example =
    run_both_lem pairs home_events fnkeyhack (refl, (refl, (refl, (refl, (refl, (refl, tt))))))
      (refl, (refl, (refl, (refl, (refl, (refl, tt)))))) ((inl refl, refl), ((inr refl, refl), tt))

reverse_normalize_key-numpad_example :
    let r = reverse_normalize_key pairs KeyCode.keypad_5 fn_bit EventType.down fnkeyhack in
    Flags.is_on r.1 ModifierFlag.numpad ≡ (is_include numpad_keys r.0 || is_include cursor_keys r.0)
reverse_normalize_key-numpad_example =
    reverse_normalize_key-numpad pairs KeyCode.keypad_5 fn_bit EventType.down fnkeyhack
      (omega arith)

change_pressing_state_lem_example :
    let r =
      change_pressing_state 8
        (FromEvent.key 49)
        (key_event 49 true)
        shift_items
        (ModifierFlag.shift_l ∷ [])
        (8 ∷ 9 ∷ []) in
    let accepted =
      accepts (FromEvent.key 49) (key_event 49 true) shift_items (ModifierFlag.shift_l ∷ []) in
    let released = FromEvent.is_target_up_event (FromEvent.key 49) (key_event 49 true) && true in
    (r.0 ≡ (accepted || released))
    × (count 8 r.1 ≡ (if accepted then 2 else if released then 0 else 1))
unfolding count
change_pressing_state_lem_example =
    change_pressing_state_lem 8 8 (FromEvent.key 49) (key_event 49 true) shift_items
      (ModifierFlag.shift_l ∷ []) (8 ∷ 9 ∷ [])

erase_all_lem_example :
    (rs : List ℕ) × (erase_all 8 (8 ∷ 9 ∷ 8 ∷ []) ≡ some rs)
    × (find 8 rs ≡ false)
    × ((q : ℕ) → q ≢ 8 → count q rs ≡ count q (8 ∷ 9 ∷ 8 ∷ []))
erase_all_lem_example = erase_all_lem 8 (8 ∷ 9 ∷ 8 ∷ [])

held-update_example :
    held
      (key_event 17 true)
      (update false (key_event 49 false) (FromEvent.key 49 ∷ FromEvent.key 17 ∷ []))
    ≡ expected false
        (key_event 49 false)
        (some false)
        (key_event 17 true)
        (held (key_event 17 true) (FromEvent.key 49 ∷ FromEvent.key 17 ∷ []))
unfolding iskeydown
held-update_example =
    held-update false (key_event 49 false) (key_event 17 true)
      (FromEvent.key 49 ∷ FromEvent.key 17 ∷ [])

abbrev idle : State
idle = record { queue = []; timer = none; id = 10000; key_repeat = 0; autogen_id = 0 }

run-id_example :
    let now = run pairs (sets_key EventType.down 0 17 40 1 500 30 ∷ cancels ∷ []) idle in
    (now.id ≤ 10000) × ((cancel now).id ≢ now.id)
run-id_example =
    run-id pairs (sets_key EventType.down 0 17 40 1 500 30 ∷ cancels ∷ []) idle (omega arith)

set_key_down_up_example :
    let held = after_down pairs 0 17 40 1 500 30 idle in
    (held.queue ≡ keyboard (make_keyboard_event pairs EventType.down 0 17 40 true) ∷ [])
    × (held.timer ≡ some 500)
    × (set_key pairs EventType.up 0 49 40 2 400 20 held ≡ held)
set_key_down_up_example =
    set_key_down_up pairs 0 17 40 1 500 30 0 49 40 2 400 20 idle (λ e. omega (arith, e))
      (λ e. omega (arith, e))
