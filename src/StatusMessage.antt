-- ===== src/StatusMessage.antt =====
-- The status messages of core/kext/Classes/CommonData.cpp and the names of
-- core/kext/Classes/ModifierName.hpp and ModifierName.cpp, with the static buffer that
-- `FlagStatus::updateStatusMessage` (core/kext/Classes/FlagStatus.cpp) keeps between its calls.
-- A C string is the list of its bytes before the terminator. `send_notification_to_userspace` is
-- seen as the list of the indices that it was called with, latest first.
use karabiner_cn.Base.{
  ℕ, ◌-◌, Bool, true, false, List, [], ◌∷◌, ◌++◌, Option, none, some, ◌==◌, ltb, ◌&&◌,
  if◌then◌else◌, length, take,
}
use karabiner_cn.ModifierFlag

-- `BRIDGE_USERCLIENT_STATUS_MESSAGE_*` of bridge/include/bridge.h.
abbrev pub index_none : ℕ
index_none = 0

abbrev pub index_modifier_lock : ℕ
index_modifier_lock = 2

abbrev pub index_modifier_caps_lock : ℕ
index_modifier_caps_lock = 3

abbrev pub index_modifier_sticky : ℕ
index_modifier_sticky = 4

abbrev pub index_pointing_button_lock : ℕ
index_pointing_button_lock = 5

abbrev pub index_end : ℕ
index_end = 6

-- `BRIDGE_USERCLIENT_STATUS_MESSAGE_MAXLEN`.
abbrev pub maxlen : ℕ
maxlen = 128

pub record Board : Type 0 where
  pub messages : ℕ → List ℕ
  pub previous_message : List ℕ
  pub notifications : List ℕ
  pub names : List (ℕ × List ℕ)

-- `strlcat` of a C string into a buffer of `size` bytes.
abbrev pub strlcat : ℕ → List ℕ → List ℕ → List ℕ
strlcat size dst src = dst ++ take (size - 1 - length dst) src

-- `strcmp` finds no difference.
unfoldable pub same_string : List ℕ → List ℕ → Bool
same_string [] [] = true
same_string [] (y ∷ ys) = false
same_string (x ∷ xs) [] = false
same_string (x ∷ xs) (y ∷ ys) = x == y && same_string xs ys

-- The guard of the four functions below.
abbrev pub in_range : ℕ → Bool
in_range index = ltb index_none index && ltb index index_end

abbrev pub set_message : Board → ℕ → List ℕ → Board
set_message b index s = record b { messages = λ i. if i == index then s else b.messages i }

unfoldable pub clear_statusmessage : ℕ → Board → Board
clear_statusmessage index b = if in_range index then set_message b index [] else b

unfoldable pub append_statusmessage : ℕ → List ℕ → Board → Board
append_statusmessage index s b =
    if in_range index then set_message b index (strlcat maxlen (b.messages index) s) else b

unfoldable pub send_notification_statusmessage : ℕ → Board → Board
send_notification_statusmessage index b =
    if in_range index then record b { notifications = index ∷ b.notifications } else b

-- The names after `ModifierName::clearVirtualModifiers`.
abbrev pub clear_virtual_modifiers : List (ℕ × List ℕ)
clear_virtual_modifiers =
    (ModifierFlag.capslock, b'c' ∷ b'a' ∷ b'p' ∷ b's' ∷ [])
    ∷ (ModifierFlag.shift_l, b's' ∷ b'h' ∷ b'i' ∷ b'f' ∷ b't' ∷ [])
    ∷ (ModifierFlag.shift_r, b's' ∷ b'h' ∷ b'i' ∷ b'f' ∷ b't' ∷ [])
    ∷ (ModifierFlag.control_l, b'c' ∷ b'o' ∷ b'n' ∷ b't' ∷ b'r' ∷ b'o' ∷ b'l' ∷ [])
    ∷ (ModifierFlag.control_r, b'c' ∷ b'o' ∷ b'n' ∷ b't' ∷ b'r' ∷ b'o' ∷ b'l' ∷ [])
    ∷ (ModifierFlag.option_l, b'o' ∷ b'p' ∷ b't' ∷ b'i' ∷ b'o' ∷ b'n' ∷ [])
    ∷ (ModifierFlag.option_r, b'o' ∷ b'p' ∷ b't' ∷ b'i' ∷ b'o' ∷ b'n' ∷ [])
    ∷ (ModifierFlag.command_l, b'c' ∷ b'o' ∷ b'm' ∷ b'm' ∷ b'a' ∷ b'n' ∷ b'd' ∷ [])
    ∷ (ModifierFlag.command_r, b'c' ∷ b'o' ∷ b'm' ∷ b'm' ∷ b'a' ∷ b'n' ∷ b'd' ∷ [])
    ∷ (ModifierFlag.fn, b'f' ∷ b'n' ∷ [])
    ∷ []

-- `ModifierName::getName`: the first entry of the modifier; none stands for the null pointer.
unfoldable pub get_name : List (ℕ × List ℕ) → ℕ → Option (List ℕ)
get_name [] m = none
get_name ((f, name) ∷ rest) m = if m == f then some name else get_name rest m
