-- ===== src/RemapClass/Refresh/Repeat.antt =====
-- A refresh of `RemapClassManager` (core/kext/RemapClass.cpp) when nothing has changed since the last
-- one.
use karabiner_cn.Base.{
  ℕ, ◌≡◌, refl, ap, ◌∙◌, inl, inr, true, false, List, [], ◌∷◌, Option, none, some, ==_refl,
  if◌then◌else◌, arith, Bool-cases,
}
use karabiner_cn.Bridge
use karabiner_cn.RemapClass.{RemapClass}
use karabiner_cn.RemapClass.Rules.{Active}
use karabiner_cn.RemapClass.Refresh.{
  State, Collected, collect, nothing_collected, show_message, refresh_timer_callback,
}
use karabiner_cn.StatusMessage.{
  same_string, clear_statusmessage, append_statusmessage, send_notification_statusmessage,
}
use karabiner_cn.StrlcpyUtf8.{strlcpy}

same_string_refl : (s : List ℕ) → same_string s s ≡ true
unfolding same_string
same_string_refl [] = refl
same_string_refl (x ∷ xs) = ground (arith, ==_refl x, same_string_refl xs)

-- The state behind a message that was shown.
abbrev shown_state : Collected → State → List ℕ → State
shown_state x s l = record {
  collected = x;
  lastmessage = l;
  board = send_notification_statusmessage Bridge.status_message_extra (
      append_statusmessage Bridge.status_message_extra x.statusmessage
        (clear_statusmessage Bridge.status_message_extra s.board));
}

show_message-same :
    (x : Collected) (s : State)
    → same_string x.statusmessage s.lastmessage ≡ true
    → show_message x s ≡ some (record s { collected = x })
unfolding show_message
show_message-same x s e = ap (λ b. if b then some (record s { collected = x }) else shown) e
  where
    shown : Option State
    shown = elim (strlcpy Bridge.status_message_maxlen x.statusmessage) [
      | none ↦ none
      | some l ↦ some (shown_state x s l)
    ]

show_message-other :
    (x : Collected) (s : State) (l : List ℕ)
    → same_string x.statusmessage s.lastmessage ≡ false
    → strlcpy Bridge.status_message_maxlen x.statusmessage ≡ some l
    → show_message x s ≡ some (shown_state x s l)
unfolding show_message
show_message-other x s l e h =
    ap (λ b. if b then some (record s { collected = x }) else shown) e
    ∙ ap (λ o. elim o [ none ↦ none | some l ↦ some (shown_state x s l) ]) h
  where
    shown : Option State
    shown = elim (strlcpy Bridge.status_message_maxlen x.statusmessage) [
      | none ↦ none
      | some l ↦ some (shown_state x s l)
    ]

show_message_repeats :
    (x : Collected) (s : State)
    → strlcpy Bridge.status_message_maxlen x.statusmessage ≡ some x.statusmessage
    → (r : State) × (show_message x s ≡ some r) × (show_message x r ≡ some r)
show_message_repeats x s h = elim (Bool-cases (same_string x.statusmessage s.lastmessage)) [
  | inl e ↦ (
    record s { collected = x },
    show_message-same x s e,
    show_message-same x (record s { collected = x }) e,
  )
  | inr n ↦ (
    shown_state x s x.statusmessage,
    show_message-other x s x.statusmessage n h,
    show_message-same x (shown_state x s x.statusmessage) (same_string_refl x.statusmessage),
  )
]

-- If the buffer of the last message holds the new message to its last byte, then a refresh returns,
-- and a second one, with the same classes and active items, returns too, changes nothing and notifies
-- nobody.
pub refresh_timer_callback_repeats :
    (active : List Active) (cs : List (Option RemapClass)) (s : State)
    → (strlcpy Bridge.status_message_maxlen (collect active 0 cs nothing_collected).statusmessage
        ≡ some (collect active 0 cs nothing_collected).statusmessage)
    → (r : State) × (refresh_timer_callback active cs s ≡ some r)
      × (refresh_timer_callback active cs r ≡ some r)
unfolding refresh_timer_callback
refresh_timer_callback_repeats active cs s h =
    show_message_repeats (collect active 0 cs nothing_collected) s h
