-- ===== src/Bridge.antt =====
-- The numbers of bridge/include/bridge.h that the kernel extension and the compiler of private.xml
-- share, counted from the enumeration there.
use Prim.Native.Nat.{ℕ}

-- `BRIDGE_DATATYPE_*`.
abbrev pub datatype_none : ℕ
datatype_none = 0

abbrev pub datatype_keycode : ℕ
datatype_keycode = 1

abbrev pub datatype_modifierflag : ℕ
datatype_modifierflag = 2

abbrev pub datatype_modifierflags_end : ℕ
datatype_modifierflags_end = 3

abbrev pub datatype_consumerkeycode : ℕ
datatype_consumerkeycode = 4

abbrev pub datatype_pointingbutton : ℕ
datatype_pointingbutton = 5

abbrev pub datatype_scrollwheel : ℕ
datatype_scrollwheel = 6

abbrev pub datatype_option : ℕ
datatype_option = 12

abbrev pub datatype_millisecond : ℕ
datatype_millisecond = 13

abbrev pub datatype_eventtype : ℕ
datatype_eventtype = 18

-- `BRIDGE_REMAPTYPE_*`.
abbrev pub remaptype_none : ℕ
remaptype_none = 19

abbrev pub remaptype_passthrough : ℕ
remaptype_passthrough = 20

abbrev pub remaptype_simultaneouskeypresses : ℕ
remaptype_simultaneouskeypresses = 36

abbrev pub remaptype_end : ℕ
remaptype_end = 41

-- `BRIDGE_FILTERTYPE_*`.
abbrev pub filtertype_none : ℕ
filtertype_none = 42

abbrev pub filtertype_application_not : ℕ
filtertype_application_not = 43

abbrev pub filtertype_windowname_not : ℕ
filtertype_windowname_not = 45

abbrev pub filtertype_uielementrole_not : ℕ
filtertype_uielementrole_not = 47

abbrev pub filtertype_config_not : ℕ
filtertype_config_not = 49

abbrev pub filtertype_device_not : ℕ
filtertype_device_not = 51

abbrev pub filtertype_elapsedtimesincelastpressed_greaterthan : ℕ
filtertype_elapsedtimesincelastpressed_greaterthan = 53

abbrev pub filtertype_elapsedtimesincelastreleased_greaterthan : ℕ
filtertype_elapsedtimesincelastreleased_greaterthan = 55

abbrev pub filtertype_inputsource_not : ℕ
filtertype_inputsource_not = 57

abbrev pub filtertype_lastpressedphysicalkey_not : ℕ
filtertype_lastpressedphysicalkey_not = 59

abbrev pub filtertype_lastreleasedphysicalkey_not : ℕ
filtertype_lastreleasedphysicalkey_not = 61

abbrev pub filtertype_lastsentevent_not : ℕ
filtertype_lastsentevent_not = 63

abbrev pub filtertype_modifier_not : ℕ
filtertype_modifier_not = 65

abbrev pub filtertype_modifier_locked_not : ℕ
filtertype_modifier_locked_not = 67

abbrev pub filtertype_modifier_stuck_not : ℕ
filtertype_modifier_stuck_not = 69

abbrev pub filtertype_pressingphysicalkeys_greaterthan : ℕ
filtertype_pressingphysicalkeys_greaterthan = 71

abbrev pub filtertype_end : ℕ
filtertype_end = 73

-- The other blocks of an initialize vector.
abbrev pub statusmessage : ℕ
statusmessage = 80

abbrev pub modifiername : ℕ
modifiername = 81

abbrev pub vk_modifier : ℕ
vk_modifier = 82

abbrev pub vk_config : ℕ
vk_config = 83

abbrev pub vk_change_inputsource : ℕ
vk_change_inputsource = 84

abbrev pub vk_open_url : ℕ
vk_open_url = 85

-- `BRIDGE_USERCLIENT_STATUS_MESSAGE_MAXLEN`.
abbrev pub status_message_maxlen : ℕ
status_message_maxlen = 128

-- `BRIDGE_USERCLIENT_STATUS_MESSAGE_EXTRA`.
abbrev pub status_message_extra : ℕ
status_message_extra = 1
