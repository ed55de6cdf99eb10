-- ===== src/FlagStatus/Message.antt =====
-- The two functions `FlagStatus::updateStatusMessage` of core/kext/Classes/FlagStatus.cpp.
use karabiner_cn.Base.{ℕ, List, [], ◌∷◌, none, some, ◌==◌, if◌then◌else◌}
use karabiner_cn.Base.Int.{is_pos}
use karabiner_cn.FlagStatus.Counter.{Item}
use karabiner_cn.ModifierFlag
use karabiner_cn.StatusMessage.{
  Board, strlcat, same_string, maxlen, index_modifier_lock, index_modifier_caps_lock,
  index_modifier_sticky, clear_statusmessage, append_statusmessage, send_notification_statusmessage,
  get_name,
}

abbrev minus : List ℕ
minus = b'-' ∷ []

abbrev space : List ℕ
space = b' ' ∷ []

-- The body of the loop for a named modifier: the `switch` over the index.
unfoldable pub append_item : ℕ → Item → List ℕ → Board → Board
unfolding append_statusmessage
append_item index x name b =
    if index == index_modifier_lock
    then (if x.flag == ModifierFlag.capslock
        then b
        else if is_pos x.negative_lock_count
        then append_statusmessage index space
            (append_statusmessage index name (append_statusmessage index minus b))
        else if is_pos x.lock_count
        then append_statusmessage index space (append_statusmessage index name b)
        else b)
    else if index == index_modifier_caps_lock
    then (if x.flag == ModifierFlag.capslock
        then (if is_pos x.lock_count
            then append_statusmessage index space (append_statusmessage index name b)
            else b)
        else b)
    else if index == index_modifier_sticky
    then (if is_pos x.sticky_count
        then append_statusmessage index space (append_statusmessage index name b)
        else b)
    else b

unfoldable pub append_items : ℕ → List Item → Board → Board
unfolding append_item get_name
append_items index [] b = b
append_items index (x ∷ xs) b =
    append_items index xs
      (elim (get_name b.names x.flag) [ none ↦ b | some name ↦ append_item index x name b ])

-- `updateStatusMessage(unsigned int)`.
unfoldable pub update_message : ℕ → List Item → Board → Board
unfolding append_items clear_statusmessage
update_message index items b = append_items index items (clear_statusmessage index b)

-- One round of the loop of `updateStatusMessage(void)`. The static buffer `previousMessage` is
-- appended to, and keeps what earlier rounds and earlier calls left in it.
unfoldable pub update_round : ℕ → List Item → Board → Board
unfolding update_message same_string send_notification_statusmessage
update_round index items b =
    let previous = strlcat maxlen b.previous_message (b.messages index) in
    let b' = update_message index items (record b { previous_message = previous }) in
    if same_string (b'.messages index) previous
    then b'
    else send_notification_statusmessage index b'

unfoldable pub update_status_message : List Item → Board → Board
unfolding update_round
update_status_message items b =
    update_round index_modifier_sticky items
      (update_round index_modifier_caps_lock items (update_round index_modifier_lock items b))
