-- ===== src/RemapFilter.antt =====
-- The filters of core/kext/RemapFilter: one class for each kind of filter, made from the words of a
-- filter block by the factory of RemapFilterFactory.hpp, and asked whether they block a rule.
-- What `CommonData`, the global `FlagStatus` and the other static members hold is an argument.
pub mod Laws
use karabiner_cn.Base.{
  ℕ, ◌+◌, Bool, true, false, not, ◌&&◌, ◌||◌, List, [], ◌∷◌, ◌++◌, Option, none, some, ◌==◌, leb,
  if◌then◌else◌, any_of, is_include,
}
use karabiner_cn.Bridge
use karabiner_cn.EventInputQueue.{DeviceIdentifier}
use karabiner_cn.FlagStatus
use karabiner_cn.FlagStatus.Counter.{Item}
use karabiner_cn.LastKeys.{LastPhysicalKey, LastSentEvent}

-- `AddValueWithDataType`.
pub record ValueWithDataType : Type 0 where
  pub data_type : ℕ
  pub value : ℕ

-- `LastSentEventFilter::Item`.
pub record SentEvent : Type 0 where
  pub data_type : ℕ
  pub value : ℕ
  pub event_type : ℕ

-- The classes below `RemapFilterBase`, each with its `type_` and its members. The five classes that
-- hold a vector of ids differ in what they compare the ids with, which their type says.
pub data Filter : Type 0 where
  application window_name uielement_role config input_source : ℕ → List ℕ → Filter
  device : ℕ → List DeviceIdentifier → Filter
  elapsed_pressed elapsed_released : ℕ → List ValueWithDataType → Filter
  last_pressed last_released : ℕ → List ValueWithDataType → Filter
  last_sent_event : ℕ → List SentEvent → Filter
  modifier : ℕ → List (List ℕ) → Filter
  pressing_physical_keys : ℕ → ℕ → Filter

-- The constructors' loops over the words behind the type. A word that is left over is dropped.
unfoldable pub device_targets : List ℕ → List DeviceIdentifier
device_targets [] = []
device_targets (v ∷ []) = []
device_targets (v ∷ p ∷ []) = []
device_targets (v ∷ p ∷ l ∷ rest) =
    record { vendor = v; product = p; location = l } ∷ device_targets rest

unfoldable pub value_targets : List ℕ → List ValueWithDataType
value_targets [] = []
value_targets (d ∷ []) = []
value_targets (d ∷ v ∷ rest) = record { data_type = d; value = v } ∷ value_targets rest

unfoldable pub sent_event_targets : List ℕ → List SentEvent
sent_event_targets [] = []
sent_event_targets (d ∷ []) = []
sent_event_targets (d ∷ v ∷ []) = record { data_type = d; value = v; event_type = 0 } ∷ []
sent_event_targets (d ∷ v ∷ t ∷ []) = record { data_type = d; value = v; event_type = 0 } ∷ []
sent_event_targets (d ∷ v ∷ t ∷ e ∷ rest) = elim (t == Bridge.datatype_eventtype) [
  | true ↦ record { data_type = d; value = v; event_type = e } ∷ sent_event_targets rest
  | false ↦ record { data_type = d; value = v; event_type = 0 } ∷ sent_event_targets (t ∷ e ∷ rest)
]

-- `ModifierFilter`: the vector of vectors of modifiers, of which the last one, given apart, is
-- still filled.
unfoldable pub modifier_targets : List ℕ → List ℕ → List (List ℕ)
modifier_targets back [] = back ∷ []
modifier_targets back (d ∷ []) = back ∷ []
modifier_targets back (d ∷ v ∷ rest) = elim (d == Bridge.datatype_modifierflags_end) [
  | true ↦ back ∷ modifier_targets [] rest
  | false ↦
      modifier_targets (if d == Bridge.datatype_modifierflag then back ++ (v ∷ []) else back) rest
]

-- `PressingPhysicalKeysFilter`: the last word stays.
unfoldable pub last_count : ℕ → List ℕ → ℕ
last_count count [] = count
last_count count (v ∷ rest) = last_count v rest

-- `type` is one of the two types that begin at `first`.
abbrev pub one_of_two : ℕ → ℕ → Bool
one_of_two type first = type == first || type == first + 1

-- `RemapFilterFactory::create`; none is the null pointer.
unfoldable pub create : List ℕ → Option Filter
unfolding device_targets value_targets sent_event_targets modifier_targets last_count
create [] = none
create (type ∷ vec) =
    if one_of_two type Bridge.filtertype_application_not
    then some (application type vec)
    else if one_of_two type Bridge.filtertype_config_not
    then some (config type vec)
    else if one_of_two type Bridge.filtertype_device_not
    then some (device type (device_targets vec))
    else if one_of_two type Bridge.filtertype_elapsedtimesincelastpressed_greaterthan
    then some (elapsed_pressed type (value_targets vec))
    else if one_of_two type Bridge.filtertype_elapsedtimesincelastreleased_greaterthan
    then some (elapsed_released type (value_targets vec))
    else if one_of_two type Bridge.filtertype_inputsource_not
    then some (input_source type vec)
    else if one_of_two type Bridge.filtertype_lastpressedphysicalkey_not
    then some (last_pressed type (value_targets vec))
    else if one_of_two type Bridge.filtertype_lastreleasedphysicalkey_not
    then some (last_released type (value_targets vec))
    else if one_of_two type Bridge.filtertype_lastsentevent_not
    then some (last_sent_event type (sent_event_targets vec))
    else if one_of_two type Bridge.filtertype_modifier_not
        || one_of_two type Bridge.filtertype_modifier_locked_not
        || one_of_two type Bridge.filtertype_modifier_stuck_not
    then some (modifier type (modifier_targets [] vec))
    else if one_of_two type Bridge.filtertype_pressingphysicalkeys_greaterthan
    then some (pressing_physical_keys type (last_count 0 vec))
    else if one_of_two type Bridge.filtertype_windowname_not
    then some (window_name type vec)
    else if one_of_two type Bridge.filtertype_uielementrole_not
    then some (uielement_role type vec)
    else none

-- What the filters read: the members of `CommonData`, the global `FlagStatus`,
-- `RemapClassManager::isEnabled` and `ListHookedDevice::pressingPhysicalKeysCountAll`, and the clock, by
-- the milliseconds since an interval checker began.
pub record Current : Type 0 where
  pub workspace_app_ids : List ℕ
  pub workspace_window_name_ids : List ℕ
  pub workspace_ui_element_role_id : ℕ
  pub workspace_input_source_ids : List ℕ
  pub device_identifier : DeviceIdentifier
  pub last_pressed_physical_key : LastPhysicalKey
  pub last_released_physical_key : LastPhysicalKey
  pub last_sent : LastSentEvent
  pub getmillisec : ℕ → ℕ
  pub flag_status : List Item
  pub is_enabled : ℕ → Bool
  pub pressing_physical_keys_count_all : ℕ

-- `DeviceIdentifier::isEqual(const DeviceIdentifier&)` of core/kext/KeyCode.hpp: a product or a
-- location of 0 is `ANY`.
unfoldable pub is_equal_device : DeviceIdentifier → DeviceIdentifier → Bool
is_equal_device d v =
    d.vendor == v.vendor
    && (v.product == 0 || d.product == v.product)
    && (v.location == 0 || d.location == v.location)

-- The end of `isblocked` in the filters of a NOT and an ONLY type: whether a target was met.
abbrev pub blocked_by : ℕ → ℕ → Bool → Bool
blocked_by type not_type met =
    if one_of_two type not_type
    then (if met then type == not_type else not (type == not_type))
    else false

-- The loop of the filters on elapsed time. A target of another data type is skipped.
unfoldable pub out_of_time : ℕ → ℕ → ℕ → List ValueWithDataType → Bool
out_of_time type greater_type current_ms [] = false
out_of_time type greater_type current_ms (t ∷ ts) =
    (t.data_type == Bridge.datatype_millisecond
      && ((type == greater_type && leb current_ms t.value)
          || (type == greater_type + 1 && leb t.value current_ms)))
    || out_of_time type greater_type current_ms ts

unfoldable pub elapsed_blocked : (ℕ → ℕ) → ℕ → ℕ → LastPhysicalKey → List ValueWithDataType → Bool
unfolding out_of_time
elapsed_blocked getmillisec type greater_type current targets =
    if current.data_type == Bridge.datatype_none
    then false
    else if one_of_two type greater_type
    then out_of_time type greater_type (getmillisec current.ic) targets
    else false

-- The loop of the filters on the last physical keys.
unfoldable pub physical_key_blocked : ℕ → ℕ → LastPhysicalKey → List ValueWithDataType → Bool
physical_key_blocked type not_type current targets =
    if current.data_type == Bridge.datatype_none
    then false
    else blocked_by type not_type
        (any_of (λ t. t.data_type == current.data_type && t.value == current.value) targets)

unfoldable pub sent_event_blocked : ℕ → LastSentEvent → List SentEvent → Bool
sent_event_blocked type current targets =
    if current.data_type == Bridge.datatype_none
    then false
    else blocked_by type Bridge.filtertype_lastsentevent_not (
        any_of
          (λ t.
            t.data_type == current.data_type
            && t.value == current.value
            && (t.event_type == current.event_type || t.event_type == 0))
          targets)

-- Whether a modifier filter of a type meets one of its vectors. Empty vectors are skipped.
abbrev pub is_empty : List ℕ → Bool
is_empty [] = true
is_empty (x ∷ xs) = false

unfoldable pub meets_modifiers : ℕ → List Item → List ℕ → Bool
unfolding FlagStatus.are_on
meets_modifiers type items ms =
    not (is_empty ms)
    && ((one_of_two type Bridge.filtertype_modifier_not && FlagStatus.are_on items ms)
        || (one_of_two type Bridge.filtertype_modifier_locked_not && FlagStatus.is_locked items ms)
        || (one_of_two type Bridge.filtertype_modifier_stuck_not && FlagStatus.is_stuck items ms))

unfoldable pub modifier_blocked : ℕ → List Item → List (List ℕ) → Bool
unfolding meets_modifiers
modifier_blocked type items targets =
    let is_not =
      type == Bridge.filtertype_modifier_not
      || type == Bridge.filtertype_modifier_locked_not
      || type == Bridge.filtertype_modifier_stuck_not in
    if one_of_two type Bridge.filtertype_modifier_not
      || one_of_two type Bridge.filtertype_modifier_locked_not
      || one_of_two type Bridge.filtertype_modifier_stuck_not
    then (if any_of (meets_modifiers type items) targets then is_not else not is_not)
    else false

-- `isblocked` of the other classes.
abbrev pub application_blocked : Current → ℕ → List ℕ → Bool
application_blocked c type ts =
    blocked_by type Bridge.filtertype_application_not (any_of (is_include c.workspace_app_ids) ts)

abbrev pub window_name_blocked : Current → ℕ → List ℕ → Bool
window_name_blocked c type ts =
    blocked_by type Bridge.filtertype_windowname_not
      (any_of (is_include c.workspace_window_name_ids) ts)

abbrev pub uielement_role_blocked : Current → ℕ → List ℕ → Bool
uielement_role_blocked c type ts =
    blocked_by type Bridge.filtertype_uielementrole_not
      (any_of (λ t. t == c.workspace_ui_element_role_id) ts)

abbrev pub config_blocked : Current → ℕ → List ℕ → Bool
config_blocked c type ts = blocked_by type Bridge.filtertype_config_not (any_of c.is_enabled ts)

abbrev pub input_source_blocked : Current → ℕ → List ℕ → Bool
input_source_blocked c type ts =
    blocked_by type Bridge.filtertype_inputsource_not
      (any_of (is_include c.workspace_input_source_ids) ts)

unfoldable pub device_blocked : Current → ℕ → List DeviceIdentifier → Bool
unfolding is_equal_device
device_blocked c type ts =
    blocked_by type Bridge.filtertype_device_not (any_of (is_equal_device c.device_identifier) ts)

abbrev pub pressing_physical_keys_blocked : Current → ℕ → ℕ → Bool
pressing_physical_keys_blocked c type count =
    if type == Bridge.filtertype_pressingphysicalkeys_greaterthan
    then leb c.pressing_physical_keys_count_all count
    else if type == Bridge.filtertype_pressingphysicalkeys_greaterthan + 1
    then leb count c.pressing_physical_keys_count_all
    else false

-- `isblocked`.
unfoldable pub isblocked : Current → Filter → Bool
unfolding device_blocked elapsed_blocked physical_key_blocked sent_event_blocked modifier_blocked
isblocked c (application type ts) = application_blocked c type ts
isblocked c (window_name type ts) = window_name_blocked c type ts
isblocked c (uielement_role type ts) = uielement_role_blocked c type ts
isblocked c (config type ts) = config_blocked c type ts
isblocked c (input_source type ts) = input_source_blocked c type ts
isblocked c (device type ts) = device_blocked c type ts
isblocked c (elapsed_pressed type ts) =
    elapsed_blocked c.getmillisec type Bridge.filtertype_elapsedtimesincelastpressed_greaterthan
      c.last_pressed_physical_key ts
isblocked c (elapsed_released type ts) =
    elapsed_blocked c.getmillisec type Bridge.filtertype_elapsedtimesincelastreleased_greaterthan
      c.last_released_physical_key ts
isblocked c (last_pressed type ts) =
    physical_key_blocked type Bridge.filtertype_lastpressedphysicalkey_not
      c.last_pressed_physical_key ts
isblocked c (last_released type ts) =
    physical_key_blocked type Bridge.filtertype_lastreleasedphysicalkey_not
      c.last_released_physical_key ts
isblocked c (last_sent_event type ts) = sent_event_blocked type c.last_sent ts
isblocked c (modifier type ts) = modifier_blocked type c.flag_status ts
isblocked c (pressing_physical_keys type count) = pressing_physical_keys_blocked c type count

-- `isblocked_keyup`: of the filter on devices what `isblocked` says, and otherwise false.
unfoldable pub isblocked_keyup : Current → Filter → Bool
unfolding isblocked
isblocked_keyup c (device type ts) = isblocked c (device type ts)
isblocked_keyup c f = false
