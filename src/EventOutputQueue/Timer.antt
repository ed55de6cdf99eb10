-- ===== src/EventOutputQueue/Timer.antt =====
-- `fire_timer_callback` of core/kext/Classes/EventOutputQueue.cpp: each run of the timer takes one
-- event off the queue, hands it on, and sets the timer again while there are more.
pub mod Drain
pub mod Order
use karabiner_cn.Base.{
  ℕ, ◌+◌, ◌-◌, ◌%◌, ◌^◌, Bool, true, false, not, ◌&&◌, ◌||◌, List, [], ◌∷◌, Option, none, some,
  ◌==◌, ltb, if◌then◌else◌,
}
use karabiner_cn.Base.Int.{ℤ, pos, negsuc}
use karabiner_cn.KeyCodeModifierFlagPairs.{Pair}
use karabiner_cn.Params.{
  ParamsBase, KeyboardEvent, KeyboardSpecialEvent, keyboard, update_event_flags, keyboard_special,
  relative_pointer, scroll_wheel, wait, empty_instance, is_modifier,
}
use karabiner_cn.EventOutputQueue.{State, World, Item}

-- What the other parts answer during one run of the timer: which positions of the queue
-- `RemapClassManager::cancelEventOutputQueueItems` cancels, `VirtualKey::handleAfterEnqueued`,
-- `apply` of `ListHookedConsumer`, and the two times of `Config`.
pub record Outside : Type 0 where
  pub cancels : List Item → ℕ → Bool
  pub handles_after_enqueued : KeyboardEvent → Bool
  pub applies_to_consumer : KeyboardSpecialEvent → Bool
  pub wait_before_and_after_a_modifier_key_event : ℕ
  pub wait_before_and_after_a_click_event : ℕ

-- Who gets an event.
pub data Receiver : Type 0 where
  virtual_key hooked_keyboard hooked_consumer io_hid_post_event hooked_pointing : Receiver

-- `calcDelay`, with `previousButtons_`.
abbrev click_delay : Outside → ParamsBase → ℕ → ℕ × ℕ
click_delay o (relative_pointer p) previous =
    if p.buttons == previous
    then (0, previous)
    else (o.wait_before_and_after_a_click_event, p.buttons)
click_delay o p previous = (0, previous)

unfoldable pub calc_delay : List Pair → Outside → ParamsBase → ℕ → ℕ × ℕ
unfolding is_modifier
calc_delay pairs o p previous =
    if is_modifier pairs p
    then (o.wait_before_and_after_a_modifier_key_event, previous)
    else click_delay o p previous

unfoldable pub max_delay : ℕ → ℕ → ℕ
max_delay v1 v2 = if ltb v2 v1 then v1 else v2

-- The conversion of an int to an unsigned int of 32 bits.
abbrev pub to_unsigned : ℤ → ℕ
to_unsigned (pos n) = n % 2 ^ 32
to_unsigned (negsuc n) = 2 ^ 32 - 1 - n % 2 ^ 32

-- The delay behind an event, by its kind.
unfoldable pub event_delay : ParamsBase → ℕ → ℕ
unfolding max_delay
event_delay (keyboard p) delay = max_delay delay 1
event_delay (update_event_flags flags) delay = max_delay delay 1
event_delay (keyboard_special p) delay = max_delay delay 1
event_delay (wait ms) delay = max_delay delay (to_unsigned ms)
event_delay p delay = delay

unfoldable pub receiver : Outside → ParamsBase → Option Receiver
receiver o (keyboard p) = some (if o.handles_after_enqueued p then virtual_key else hooked_keyboard)
receiver o (keyboard_special p) =
    some (if o.applies_to_consumer p then hooked_consumer else io_hid_post_event)
receiver o (relative_pointer p) = some hooked_pointing
receiver o (scroll_wheel p) = some hooked_pointing
receiver o p = none

-- `cancelEventOutputQueueItems` sets the flag of some items, from the one at position `n` on.
unfoldable pub cancel_from : (ℕ → Bool) → ℕ → List Item → List Item
cancel_from cancels n [] = []
cancel_from cancels n (i ∷ is) =
    record i { canceled = i.canceled || cancels n } ∷ cancel_from cancels (n + 1) is

unfoldable pub delete_canceled : List Item → List Item
delete_canceled [] = []
delete_canceled (i ∷ is) = let rest = delete_canceled is in if i.canceled then rest else i ∷ rest

-- An event that has been taken off the queue, and who got it.
abbrev pub Sent : Type 0
Sent = ParamsBase × Option Receiver

-- The callback behind the deletion of the canceled items.
unfoldable pub fire_front : World → Outside → List Item → State → State × Option Sent
unfolding calc_delay event_delay max_delay receiver
fire_front w o [] s = (record s { queue = [] }, none)
fire_front w o (i ∷ []) s =
    let d = calc_delay w.pairs o i.params s.previous_buttons in
    (record s { queue = []; previous_buttons = d.1 }, some (i.params, receiver o i.params))
fire_front w o (i ∷ j ∷ rest) s =
    let d = calc_delay w.pairs o i.params s.previous_buttons in
    let e = calc_delay w.pairs o j.params d.1 in
    (
      record s {
        queue = j ∷ rest;
        previous_buttons = e.1;
        fire_timer = some (max_delay (event_delay i.params d.0) e.0);
      },
      some (i.params, receiver o i.params),
    )

-- `fire_timer_callback`. The timer is not active while it runs.
unfoldable pub fire_timer_callback : World → Outside → State → State × Option Sent
unfolding fire_front delete_canceled cancel_from
fire_timer_callback w o s =
    fire_front w o (delete_canceled (cancel_from (o.cancels s.queue) 0 s.queue))
      (record s { fire_timer = none })

-- The callback runs when the timer is active, and only then.
unfoldable pub fire_if_active : World → Outside → State → Option ℕ → State × Option Sent
unfolding fire_timer_callback
fire_if_active w o s none = (s, none)
fire_if_active w o s (some ms) = fire_timer_callback w o s

unfoldable pub tick : World → Outside → State → State × Option Sent
unfolding fire_if_active
tick w o s = fire_if_active w o s s.fire_timer

abbrev pub add_sent : Option Sent → List Sent → List Sent
add_sent none l = l
add_sent (some x) l = x ∷ l

-- The timer, time and again: what has been sent, in order.
unfoldable pub run : World → List Outside → State → State × List Sent
unfolding tick
run w [] s = (s, [])
run w (o ∷ os) s = let r = tick w o s in let rest = run w os r.0 in (rest.0, add_sent r.1 rest.1)
