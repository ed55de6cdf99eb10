-- ===== src/EventInputQueue/Pointer.antt =====
-- `EventInputQueue::push_RelativePointerEventCallback` of core/kext/Classes/EventInputQueue.cpp: an
-- event of a pointing device becomes one event for each button that changed and one for the move.
-- The lock, the look-up of the device and the timers are left out: the functions begin where the
-- device has been found, and give what is enqueued for it, in order.
pub mod Laws
use karabiner_cn.Base.{
  ℕ, zero, suc, ◌^◌, Bool, true, false, not, ◌&&◌, ◌||◌, List, [], ◌∷◌, ◌++◌, if◌then◌else◌,
}
use karabiner_cn.Base.Int.{ℤ, pos, eqb_ℤ}
use karabiner_cn.Buttons
use karabiner_cn.Params.{ParamsBase, relative_pointer}

-- The parameters of one call of `enqueue_`, with `retainFlagStatusTemporaryCount`.
pub record Enqueued : Type 0 where
  pub params : ParamsBase
  pub retain : Bool

abbrev pub pointer_params : ℕ → ℤ → ℤ → ℕ → Bool → ParamsBase
pointer_params bt x y button is_down =
    relative_pointer
      (record { buttons = bt; dx = x; dy = y; ex_button = button; ex_isbuttondown = is_down })

-- One turn of the loop over the buttons, for the button 1 << i.
unfoldable pub button_events : Bool → ℕ → ℕ → ℕ → ℕ → List Enqueued
unfolding Buttons.is_on
button_events lazy buttons just_pressed just_released i =
    (if Buttons.is_on just_pressed (2 ^ i)
      then record { params = pointer_params buttons (pos 0) (pos 0) (2 ^ i) true; retain = lazy }
        ∷ []
      else [])
    ++ (if Buttons.is_on just_released (2 ^ i)
        then record { params = pointer_params buttons (pos 0) (pos 0) (2 ^ i) false; retain = lazy }
          ∷ []
        else [])

-- The turns for the n places from i on.
unfoldable pub all_button_events : Bool → ℕ → ℕ → ℕ → ℕ → ℕ → List Enqueued
unfolding button_events
all_button_events lazy buttons just_pressed just_released i zero = []
all_button_events lazy buttons just_pressed just_released i (suc n) =
    button_events lazy buttons just_pressed just_released i
    ++ all_button_events lazy buttons just_pressed just_released (suc i) n

-- What is enqueued, by the previous buttons of the device. `lazy` is the setting
-- general_lazy_modifiers_with_mouse_event.
unfoldable pub push_relative_pointer : Bool → ℕ → ℕ → ℤ → ℤ → List Enqueued
unfolding all_button_events Buttons.just_pressed Buttons.just_released
push_relative_pointer lazy previous buttons dx dy =
    all_button_events lazy buttons (Buttons.just_pressed buttons previous)
      (Buttons.just_released buttons previous) 0 32
    ++ (if not (eqb_ℤ dx (pos 0)) || not (eqb_ℤ dy (pos 0))
        then record { params = pointer_params buttons dx dy Buttons.none false; retain = true } ∷ []
        else [])
