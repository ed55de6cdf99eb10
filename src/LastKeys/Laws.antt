-- ===== src/LastKeys/Laws.antt =====
-- What core/kext/Classes/LastPressedPhysicalKey.cpp and LastReleasedPhysicalKey.cpp record.
use karabiner_cn.Base.{ℕ, ◌≡◌, refl, Bool, true, false, Option, none, some, arith}
use karabiner_cn.Bridge
use karabiner_cn.FromEvent.{FromEvent, of_params, key, consumer_key, pointing_button, no_event}
use karabiner_cn.LastKeys.{LastPhysicalKey, update_pressed, update_released}
use karabiner_cn.Params.{ParamsBase, keyboard, keyboard_special, relative_pointer, iskeydown}

-- The data type and the code by which an event is recorded.
abbrev pub entry : FromEvent → ℕ → LastPhysicalKey
entry no_event now = record { data_type = Bridge.datatype_none; value = 0; ic = now }
entry (key k) now = record { data_type = Bridge.datatype_keycode; value = k; ic = now }
entry (consumer_key k) now = record {
  data_type = Bridge.datatype_consumerkeycode;
  value = k;
  ic = now;
}
entry (pointing_button b) now = record {
  data_type = Bridge.datatype_pointingbutton;
  value = b;
  ic = now;
}

-- What the two records are to be behind an event.
abbrev pub expected :
    Option Bool
    → LastPhysicalKey
    → LastPhysicalKey
    → LastPhysicalKey
    → LastPhysicalKey × LastPhysicalKey
expected none new pressed released = (pressed, released)
expected (some true) new pressed released = (new, released)
expected (some false) new pressed released = (pressed, new)

-- Every event that `iskeydown` answers for is recorded by the object that a `FromEvent` of it has,
-- with the moment, as the last pressed key if it is a down event and as the last released one if it
-- is an up event, and the other record stays. Any other event changes neither.
pub update_pressed-update_released :
    (now : ℕ) (p : ParamsBase) (pressed released : LastPhysicalKey)
    → (update_pressed now p pressed, update_released now p released)
      ≡ expected (iskeydown p) (entry (of_params p) now) pressed released
unfolding update_pressed update_released iskeydown of_params
update_pressed-update_released now (keyboard p) pressed released = ground arith
update_pressed-update_released now (keyboard_special p) pressed released = ground arith
update_pressed-update_released now (relative_pointer p) pressed released = ground arith
update_pressed-update_released now p pressed released = refl
