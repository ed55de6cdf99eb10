-- ===== src/ButtonStatus.antt =====
-- `ButtonStatus` of core/kext/Classes/ButtonStatus.hpp and ButtonStatus.cpp: one item of counters for
-- each of the 32 pointing buttons. The static members are the fields of `State`, with the `Board`
-- of status messages of core/kext/Classes/CommonData.cpp.
pub mod Item
pub mod Laws
use karabiner_cn.Base.{
  ℕ, zero, suc, ◌-◌, ◌^◌, ◌+◌, Bool, true, false, List, [], ◌∷◌, ◌++◌, map, ◌==◌, not,
  if◌then◌else◌,
}
use karabiner_cn.Base.Int.{pos, eqb_ℤ}
use karabiner_cn.Buttons
use karabiner_cn.StatusMessage.{
  Board, clear_statusmessage, append_statusmessage, send_notification_statusmessage,
  index_pointing_button_lock,
}
use Item.{Button}

pub record State : Type 0 where
  pub items : List Button
  pub status_message_buttons : ℕ
  pub board : Board

-- The loop of `initialize`, for the buttons 1 << i of the next n places.
unfoldable pub initialize_from : ℕ → ℕ → List Button
unfolding Item.initialize
initialize_from i zero = []
initialize_from i (suc n) = Item.initialize (2 ^ i) ∷ initialize_from (suc i) n

-- `MAXNUM` is 32.
unfoldable pub initialize : State → State
unfolding initialize_from
initialize s = record s { items = initialize_from 0 32 }

unfoldable pub set : ℕ → Bool → State → State
unfolding Item.set
set button isbuttondown s = record s { items = map (Item.set button isbuttondown) s.items }

unfoldable pub reset : State → State
unfolding Item.reset
reset s = record s { items = map Item.reset s.items }

-- The loop of `makeButtons`.
unfoldable pub make_buttons_from : ℕ → List Button → ℕ
unfolding Item.make_buttons Buttons.add
make_buttons_from flags [] = flags
make_buttons_from flags (x ∷ xs) = make_buttons_from (Buttons.add flags (Item.make_buttons x)) xs

abbrev pub make_buttons : List Button → ℕ
make_buttons = make_buttons_from 0

-- The loop of `getLockedButtons`.
unfoldable pub get_locked_buttons_from : ℕ → List Button → ℕ
unfolding Buttons.add
get_locked_buttons_from buttons [] = buttons
get_locked_buttons_from buttons (x ∷ xs) =
    get_locked_buttons_from
      (if eqb_ℤ x.lock_count (pos 0) then buttons else Buttons.add buttons x.button) xs

abbrev pub get_locked_buttons : List Button → ℕ
get_locked_buttons = get_locked_buttons_from 0

-- `FOREACH_TO_BUTTONS`.
unfoldable pub for_buttons : ℕ → (Button → Button) → List Button → List Button
unfolding Buttons.is_on
for_buttons buttons method = map λ x. if Buttons.is_on buttons x.button then method x else x

-- The names of the sixteen buttons, in the order in which the message shows them.
abbrev word_button : List ℕ → List ℕ
word_button digits = b'B' ∷ b'u' ∷ b't' ∷ b't' ∷ b'o' ∷ b'n' ∷ (digits ++ (b' ' ∷ []))

abbrev pub shown_buttons : List (ℕ × List ℕ)
shown_buttons =
    (Buttons.right, b'R' ∷ b'i' ∷ b'g' ∷ b'h' ∷ b't' ∷ b' ' ∷ [])
    ∷ (Buttons.middle, b'M' ∷ b'i' ∷ b'd' ∷ b'd' ∷ b'l' ∷ b'e' ∷ b' ' ∷ [])
    ∷ (Buttons.left, b'L' ∷ b'e' ∷ b'f' ∷ b't' ∷ b' ' ∷ [])
    ∷ (0x8, word_button (b'4' ∷ []))
    ∷ (0x10, word_button (b'5' ∷ []))
    ∷ (0x20, word_button (b'6' ∷ []))
    ∷ (0x40, word_button (b'7' ∷ []))
    ∷ (0x80, word_button (b'8' ∷ []))
    ∷ (0x100, word_button (b'9' ∷ []))
    ∷ (0x200, word_button (b'1' ∷ b'0' ∷ []))
    ∷ (0x400, word_button (b'1' ∷ b'1' ∷ []))
    ∷ (0x800, word_button (b'1' ∷ b'2' ∷ []))
    ∷ (0x1000, word_button (b'1' ∷ b'3' ∷ []))
    ∷ (0x2000, word_button (b'1' ∷ b'4' ∷ []))
    ∷ (0x4000, word_button (b'1' ∷ b'5' ∷ []))
    ∷ (0x8000, word_button (b'1' ∷ b'6' ∷ []))
    ∷ []

unfoldable pub append_names : ℕ → List (ℕ × List ℕ) → Board → Board
unfolding Buttons.is_on append_statusmessage
append_names b [] board = board
append_names b ((button, name) ∷ rest) board = append_names b rest (
    if Buttons.is_on b button
    then append_statusmessage index_pointing_button_lock name board
    else board)

-- `updateStatusMessage`: its one index is that of the pointing button lock.
unfoldable pub update_status_message : State → State
unfolding append_names clear_statusmessage send_notification_statusmessage
update_status_message s =
    let b = get_locked_buttons s.items in
    let shown =
      append_names b shown_buttons (clear_statusmessage index_pointing_button_lock s.board) in
    record s {
      status_message_buttons = b;
      board =
          if not (b == s.status_message_buttons)
          then send_notification_statusmessage index_pointing_button_lock shown
          else s.board;
    }

unfoldable pub increase : ℕ → State → State
unfolding for_buttons Item.increase
increase buttons s = record s { items = for_buttons buttons Item.increase s.items }

unfoldable pub decrease : ℕ → State → State
unfolding for_buttons Item.decrease
decrease buttons s = record s { items = for_buttons buttons Item.decrease s.items }

-- The three methods on locks, which update the status message.
unfoldable pub lock_method : (Button → Button) → ℕ → State → State
unfolding for_buttons update_status_message
lock_method method buttons s =
    update_status_message (record s { items = for_buttons buttons method s.items })

abbrev pub lock_increase : ℕ → State → State
lock_increase = lock_method Item.lock_increase

abbrev pub lock_decrease : ℕ → State → State
lock_decrease = lock_method Item.lock_decrease

abbrev pub lock_toggle : ℕ → State → State
lock_toggle = lock_method Item.lock_toggle

unfoldable pub lock_clear : State → State
unfolding lock_method Item.lock_decrease get_locked_buttons_from
lock_clear s = lock_decrease (get_locked_buttons s.items) s
