-- ===== src/RemapClass/Refresh.antt =====
-- `refresh_timer_callback` of `RemapClassManager` (core/kext/RemapClass.cpp): which classes are gone
-- through, and the status message of the enabled ones.
pub mod Repeat
use karabiner_cn.Base.{
  ℕ, ◌+◌, Bool, true, false, not, ◌&&◌, ◌||◌, List, [], ◌∷◌, ◌++◌, Option, none, some,
  if◌then◌else◌,
}
use karabiner_cn.Bridge
use karabiner_cn.RemapClass.{RemapClass}
use karabiner_cn.RemapClass.Rules.{Active}
use karabiner_cn.RemapClass.Rules.Loops.{has_active_item}
use karabiner_cn.StatusMessage.{
  Board, strlcat, same_string, clear_statusmessage, append_statusmessage,
  send_notification_statusmessage,
}
use karabiner_cn.StrlcpyUtf8.{strlcpy}

-- What a refresh collects: `enabled_remapclasses_`, as places in `remapclasses_`, `statusmessage_`
-- and `isSimultaneousKeyPressesEnabled_`.
pub record Collected : Type 0 where
  pub enabled_remapclasses : List ℕ
  pub statusmessage : List ℕ
  pub is_simultaneous_key_presses_enabled : Bool

-- The same with `lastmessage_` and the status messages.
pub record State : Type 0 where
  pub collected : Collected
  pub lastmessage : List ℕ
  pub board : Board

-- The message of a class, and a space.
unfoldable pub append_message : Option (List ℕ) → List ℕ → List ℕ
append_message none s = s
append_message (some msg) s =
    strlcat Bridge.status_message_maxlen (strlcat Bridge.status_message_maxlen s msg) (b' ' ∷ [])

-- The class at place `i`.
unfoldable pub collect_class : List Active → ℕ → RemapClass → Collected → Collected
unfolding has_active_item append_message
collect_class active i c x =
    if c.enabled || has_active_item active c
    then (let x' = record x { enabled_remapclasses = x.enabled_remapclasses ++ (i ∷ []) } in
        if c.enabled
        then record x' {
          statusmessage = append_message c.statusmessage x.statusmessage;
          is_simultaneous_key_presses_enabled =
              c.is_simultaneouskeypresses || x.is_simultaneous_key_presses_enabled;
        }
        else x')
    else x

-- The loop over `remapclasses_`.
unfoldable pub collect : List Active → ℕ → List (Option RemapClass) → Collected → Collected
unfolding collect_class
collect active i [] x = x
collect active i (none ∷ cs) x = collect active (i + 1) cs x
collect active i (some c ∷ cs) x = collect active (i + 1) cs (collect_class active i c x)

abbrev pub nothing_collected : Collected
nothing_collected = record {
  enabled_remapclasses = [];
  statusmessage = [];
  is_simultaneous_key_presses_enabled = false;
}

-- A message that is not the last one is shown.
unfoldable pub show_message : Collected → State → Option State
unfolding same_string strlcpy clear_statusmessage append_statusmessage
    send_notification_statusmessage
show_message x s =
    if same_string x.statusmessage s.lastmessage
    then some (record s { collected = x })
    else elim (strlcpy Bridge.status_message_maxlen x.statusmessage) [
      | none ↦ none
      | some l ↦ some (record {
        collected = x;
        lastmessage = l;
        board = send_notification_statusmessage Bridge.status_message_extra (
            append_statusmessage Bridge.status_message_extra x.statusmessage
              (clear_statusmessage Bridge.status_message_extra s.board));
      })
    ]

-- `refresh_timer_callback`.
unfoldable pub refresh_timer_callback :
    List Active → List (Option RemapClass) → State → Option State
unfolding collect show_message
refresh_timer_callback active cs s = show_message (collect active 0 cs nothing_collected) s
