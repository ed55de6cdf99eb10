-- ===== src/LastKeys.antt =====
-- `LastPressedPhysicalKey`, `LastReleasedPhysicalKey` and `LastSentEvent` of core/kext/Classes: what
-- the last event was. An interval checker is the moment at which it began.
pub mod Laws
use karabiner_cn.Base.{ℕ, Bool, true, false, not, ◌&&◌, Option, none, some, ◌==◌, if◌then◌else◌}
use karabiner_cn.Bridge
use karabiner_cn.Buttons
use karabiner_cn.EventType
use karabiner_cn.Params.{
  ParamsBase, keyboard, keyboard_special, relative_pointer, scroll_wheel, iskeydown,
}

-- The two classes of physical keys.
pub record LastPhysicalKey : Type 0 where
  pub data_type : ℕ
  pub value : ℕ
  pub ic : ℕ

pub record LastSentEvent : Type 0 where
  pub data_type : ℕ
  pub value : ℕ
  pub event_type : ℕ
  pub ic : ℕ

abbrev key_at : ℕ → ℕ → ℕ → LastPhysicalKey
key_at d v now = record { data_type = d; value = v; ic = now }

-- `LastPressedPhysicalKey::update`, at the moment `now`.
unfoldable pub update_pressed : ℕ → ParamsBase → LastPhysicalKey → LastPhysicalKey
update_pressed now (keyboard p) last =
    if p.ex_iskeydown then key_at Bridge.datatype_keycode p.key now else last
update_pressed now (keyboard_special p) last =
    if p.ex_iskeydown then key_at Bridge.datatype_consumerkeycode p.key now else last
update_pressed now (relative_pointer p) last =
    if not (p.ex_button == Buttons.none) && p.ex_isbuttondown
    then key_at Bridge.datatype_pointingbutton p.ex_button now
    else last
update_pressed now p last = last

-- `LastReleasedPhysicalKey::update`.
unfoldable pub update_released : ℕ → ParamsBase → LastPhysicalKey → LastPhysicalKey
update_released now (keyboard p) last =
    if not p.ex_iskeydown then key_at Bridge.datatype_keycode p.key now else last
update_released now (keyboard_special p) last =
    if not p.ex_iskeydown then key_at Bridge.datatype_consumerkeycode p.key now else last
update_released now (relative_pointer p) last =
    if not (p.ex_button == Buttons.none) && not p.ex_isbuttondown
    then key_at Bridge.datatype_pointingbutton p.ex_button now
    else last
update_released now p last = last

abbrev sent_at : ℕ → ℕ → ℕ → ℕ → LastSentEvent
sent_at d v t now = record { data_type = d; value = v; event_type = t; ic = now }

-- The type of a pointing event: none where it is about no button.
abbrev button_event_type : Option Bool → ℕ
button_event_type none = 0
button_event_type (some true) = EventType.down
button_event_type (some false) = EventType.up

-- `LastSentEvent::update`. Any other event leaves the value and the moment, and clears the type.
unfoldable pub update_sent : ℕ → ParamsBase → LastSentEvent → LastSentEvent
unfolding iskeydown
update_sent now (keyboard p) last = sent_at Bridge.datatype_keycode p.key p.event_type now
update_sent now (keyboard_special p) last =
    sent_at Bridge.datatype_consumerkeycode p.key p.event_type now
update_sent now (relative_pointer p) last =
    sent_at Bridge.datatype_pointingbutton p.ex_button
      (button_event_type (iskeydown (relative_pointer p))) now
update_sent now (scroll_wheel p) last = sent_at Bridge.datatype_scrollwheel 0 0 now
update_sent now p last = record last { data_type = Bridge.datatype_none; event_type = 0 }
