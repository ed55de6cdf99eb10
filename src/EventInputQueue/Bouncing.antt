-- ===== src/EventInputQueue/Bouncing.antt =====
-- The loop of `EventInputQueue::fire_timer_callback` (core/kext/Classes/EventInputQueue.cpp) that
-- removes bouncing events, which is run if general_ignore_bouncing_events is set: a key up with a
-- key down of the same key shortly behind it.
-- `IntervalChecker::getmillisec`, which reads the clock, and the thresholds of the configuration are
-- arguments; an interval checker is the moment at which it began.
pub mod Laws
pub mod Pair
pub mod Reduction
pub mod Removed
use karabiner_cn.Base.{
  ℕ, zero, suc, ◌+◌, ◌-◌, ◌%◌, ◌^◌, Bool, true, false, ◌&&◌, List, [], ◌∷◌, Option, none, some,
  if◌then◌else◌, ltb, length,
}
use karabiner_cn.EventInputQueue.{Item}
use karabiner_cn.FromEvent.{
  FromEvent, no_event, key, consumer_key, pointing_button, of_params, is_target_down_event,
  is_target_up_event,
}
use karabiner_cn.Params.{ParamsBase, iskeydown}

-- The clock and the configuration.
pub record Settings : Type 0 where
  pub getmillisec : ℕ → ℕ
  pub threshold_for_keyboard : ℕ
  pub threshold_for_mice : ℕ

-- The `switch` on the type of the event.
unfoldable pub threshold : Settings → FromEvent → ℕ
threshold c no_event = 0
threshold c (key k) = c.threshold_for_keyboard
threshold c (consumer_key k) = c.threshold_for_keyboard
threshold c (pointing_button b) = c.threshold_for_mice

-- `ms1 - ms2` on 32 bits.
abbrev pub interval : Settings → Item → Item → ℕ
interval c key_up_event key_down_event =
    (c.getmillisec key_up_event.ic + 2 ^ 32 - c.getmillisec key_down_event.ic % 2 ^ 32) % 2 ^ 32

abbrev pub push {ℓ} : {A : Type ℓ} → A → Option (List A) → Option (List A)
push x none = none
push x (some xs) = some (x ∷ xs)

-- The inner loop, for a key up event: the items behind it without the key down event that it
-- removes, if it does.
unfoldable pub scan : Settings → Item → List Item → Option (List Item)
unfolding threshold of_params is_target_down_event is_target_up_event
scan c p [] = none
scan c p (q ∷ qs) =
    let e = of_params p.params in
    if is_target_up_event e q.params
    then none
    else if is_target_down_event e q.params && ltb (interval c p q) (threshold c e)
    then some qs
    else push q (scan c p qs)

abbrev pub is_up : Option Bool → Bool
is_up (some false) = true
is_up k = false

abbrev pub or_else {ℓ} : {A : Type ℓ} → Option A → Option A → Option A
or_else (some x) y = some x
or_else none y = y

-- The outer loop up to `goto retry`: the queue without the first pair that is found, if one is.
unfoldable pub remove_pair : Settings → List Item → Option (List Item)
unfolding scan iskeydown
remove_pair c [] = none
remove_pair c (p ∷ ps) =
    or_else (if is_up (iskeydown p.params) then scan c p ps else none) (push p (remove_pair c ps))

-- The `retry` loop, on fuel.
unfoldable pub remove_bouncing_fuel : Settings → ℕ → List Item → Option (List Item)
unfolding remove_pair
remove_bouncing_fuel c zero xs = none
remove_bouncing_fuel c (suc n) xs = elim (remove_pair c xs) [
  | none ↦ some xs
  | some ys ↦ remove_bouncing_fuel c n ys
]

-- A turn for each item and one more.
abbrev pub remove_bouncing : Settings → List Item → Option (List Item)
remove_bouncing c xs = remove_bouncing_fuel c (suc (length xs)) xs

-- The loop if the setting is on, which is some clock and thresholds. `remove_bouncing` is never none.
unfoldable pub ignore_bouncing : Option Settings → List Item → List Item
ignore_bouncing none xs = xs
ignore_bouncing (some c) xs = elim (remove_bouncing c xs) [ none ↦ xs | some ys ↦ ys ]
