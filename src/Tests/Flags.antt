-- ===== src/Tests/Flags.antt =====
-- Runs of the theorems on modifiers, their status and the buttons.
use karabiner_cn.Base.{
  inr, List, ◌≡◌, refl, ◌≢◌, ◌↔◌, true, false, not, ◌&&◌, [], ◌∷◌, map, arith, ◌==◌, is_include,
  any_of, All,
}
use karabiner_cn.Base.Int.{pos, is_pos}
use karabiner_cn.Base.Bits.{testbit}
use karabiner_cn.ModifierFlag
use karabiner_cn.ModifierFlag.{get_raw_bits}
use karabiner_cn.KeyCodeModifierFlagPairs.{modifier_flags}
use karabiner_cn.Flags
use karabiner_cn.Flags.Laws.{is_on-remove, is_on-of_modifiers}
use karabiner_cn.FlagStatus
use karabiner_cn.FlagStatus.Counter.{Method, sum}
use karabiner_cn.FlagStatus.Balance.{method-opposite}
use karabiner_cn.FlagStatus.Query.{is_on-make_flags, are_on_iff, IsSatisfied, IsListed}
use karabiner_cn.FlagStatus.Invariant
use karabiner_cn.FlagStatus.Invariant.{IsValid, run-IsValid, run, one, resets, flags}
use karabiner_cn.FlagStatus.Notify.{Fits, step-Fits, update_round_repeats}
use karabiner_cn.FlagStatus.Message.{update_message, update_round}
use karabiner_cn.FlagStatus.ScopedSetter.{enter}
use karabiner_cn.FlagStatus.ScopedSetter.Scope.{Step, clears, calls}
use karabiner_cn.FlagStatus.ScopedSetter.Sums.{enter-SameSums, SameSums}
use karabiner_cn.StatusMessage.{index_modifier_sticky}
use karabiner_cn.ButtonStatus
use karabiner_cn.ButtonStatus.{State}
use karabiner_cn.ButtonStatus.Laws.{testbit-make_buttons, lock_clear_lem, unlocked, pressed}
use karabiner_cn.Buttons
use karabiner_cn.Buttons.Laws.{add-remove-just_pressed}
use karabiner_cn.Tests.{pairs, board, shift_items, no_items}

shift_l-raw : get_raw_bits ModifierFlag.shift_l ≢ 0
unfolding get_raw_bits
shift_l-raw e = omega (arith, e)

shift_r-raw : get_raw_bits ModifierFlag.shift_r ≢ 0
unfolding get_raw_bits
shift_r-raw e = omega (arith, e)

is_on-remove_example :
    Flags.is_on
      (Flags.remove (modifier_flags pairs) 0x20006 ModifierFlag.shift_l)
      ModifierFlag.shift_r
    ≡ (Flags.is_on 0x20006 ModifierFlag.shift_r
        && not (ModifierFlag.shift_r == ModifierFlag.shift_l))
is_on-remove_example =
    is_on-remove (modifier_flags pairs) 0x20006 ModifierFlag.shift_l ModifierFlag.shift_r
      (omega arith) shift_l-raw shift_r-raw (inr refl)

is_on-of_modifiers_example :
    Flags.is_on
      (Flags.of_modifiers (ModifierFlag.fn ∷ ModifierFlag.shift_l ∷ []))
      ModifierFlag.shift_l
    ≡ true
is_on-of_modifiers_example =
    is_on-of_modifiers (ModifierFlag.fn ∷ ModifierFlag.shift_l ∷ []) ModifierFlag.shift_l
      shift_l-raw

is_on-make_flags_example :
    Flags.is_on (FlagStatus.make_flags shift_items) ModifierFlag.shift_l
    ≡ any_of (λ x. x.flag == ModifierFlag.shift_l && is_pos (sum x false)) shift_items
is_on-make_flags_example = is_on-make_flags shift_items ModifierFlag.shift_l shift_l-raw

are_on_iff_example :
    (FlagStatus.are_on shift_items (ModifierFlag.shift_l ∷ ModifierFlag.none ∷ []) ≡ true) ↔ (
      All (IsSatisfied shift_items) (ModifierFlag.shift_l ∷ ModifierFlag.none ∷ [])
      × (is_include (ModifierFlag.shift_l ∷ ModifierFlag.none ∷ []) ModifierFlag.none ≡ true
          → All (IsListed (ModifierFlag.shift_l ∷ ModifierFlag.none ∷ [])) shift_items))
are_on_iff_example = are_on_iff shift_items (ModifierFlag.shift_l ∷ ModifierFlag.none ∷ [])

run-IsValid_example :
    let after =
      (run pairs
        (one Method.lock_toggle ModifierFlag.fn ∷ resets ∷ [])
        (FlagStatus.initialize pairs, board)).0 in
    (flags after ≡ modifier_flags pairs) × All IsValid after
run-IsValid_example = run-IsValid pairs (one Method.lock_toggle ModifierFlag.fn ∷ resets ∷ []) board

method-opposite_example :
    ((FlagStatus.method_flag Method.decreases ModifierFlag.shift_l
        (FlagStatus.method_flag Method.increases ModifierFlag.shift_l shift_items board).0
        board).0
      ≡ shift_items)
    × ((FlagStatus.method_vector Method.decreases
          (ModifierFlag.fn ∷ [])
          (FlagStatus.method_vector Method.increases (ModifierFlag.fn ∷ []) shift_items board).0
          board).0
        ≡ shift_items)
    × ((FlagStatus.method_flag_vector Method.decreases ModifierFlag.shift_l
          (ModifierFlag.fn ∷ [])
          (FlagStatus.method_flag_vector Method.increases ModifierFlag.shift_l
            (ModifierFlag.fn ∷ [])
            shift_items
            board).0
          board).0
        ≡ shift_items)
method-opposite_example =
    method-opposite Method.increases ModifierFlag.shift_l (ModifierFlag.fn ∷ []) shift_items board
      board refl refl refl

-- A key is fired with shift.
abbrev fired_steps : List Step
fired_steps =
    calls Method.temporary_increase (ModifierFlag.shift_l ∷ [])
    ∷ clears
    ∷ calls Method.temporary_decrease (ModifierFlag.shift_l ∷ [])
    ∷ []

enter-SameSums_example : SameSums (enter shift_items no_items board).1.0 no_items
enter-SameSums_example = enter-SameSums shift_items no_items board (refl, refl, (refl, refl, tt))

board-Fits : Fits board
board-Fits = record { messages_fit = λ i. omega arith; previous_fits = omega arith }

step-Fits_example :
    Fits
      (Invariant.step pairs (one Method.sticky_toggle ModifierFlag.shift_l) (shift_items, board)).1
step-Fits_example =
    step-Fits pairs (one Method.sticky_toggle ModifierFlag.shift_l) shift_items board board-Fits

-- No modifier is sticky, and the message stays empty.
update_round_repeats_example :
    (update_round index_modifier_sticky no_items board).notifications ≡ index_modifier_sticky ∷ []
unfolding update_message
update_round_repeats_example =
    update_round_repeats index_modifier_sticky no_items board refl (λ e. cc) (omega arith) refl

abbrev locked_state : State
locked_state = record {
  items =
      record { button = 1; count = pos 0; lock_count = pos 1 }
      ∷ record { button = 2; count = pos 1; lock_count = pos 0 }
      ∷ [];
  status_message_buttons = 1;
  board = board;
}

testbit-make_buttons_example :
    testbit 1 (ButtonStatus.make_buttons locked_state.items) ≡ any_of (pressed 1) locked_state.items
testbit-make_buttons_example = testbit-make_buttons 1 locked_state.items

lock_clear_lem_example :
    ((ButtonStatus.lock_clear locked_state).items ≡ map unlocked locked_state.items)
    × (ButtonStatus.get_locked_buttons (ButtonStatus.lock_clear locked_state).items ≡ 0)
    × ((ButtonStatus.lock_clear locked_state).status_message_buttons ≡ 0)
lock_clear_lem_example = lock_clear_lem locked_state

add-remove-just_pressed_example :
    Buttons.add (Buttons.remove 3 (Buttons.just_released 6 3)) (Buttons.just_pressed 6 3) ≡ 6
add-remove-just_pressed_example = add-remove-just_pressed 6 3 (omega arith) (omega arith)
