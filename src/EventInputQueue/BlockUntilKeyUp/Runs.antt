-- ===== src/EventInputQueue/BlockUntilKeyUp/Runs.antt =====
-- Runs of the queue with `BlockUntilKeyUpHandler` (core/kext/Classes/EventInputQueue.cpp): what comes
-- from the hardware, the turns of the timer and the timeouts of the blocking, in any order.
use karabiner_cn.Base.{◌≡◌, Bool, true, false, ◌||◌, List, [], ◌∷◌, ◌++◌, Option, none, some}
use karabiner_cn.EventInputQueue.{Item}
use karabiner_cn.EventInputQueue.BlockUntilKeyUp.{
  State, Outside, debounced, remapped, tick, blocking_time_out,
}

-- What `doFire` was called for, in order; the queues that the rules for simultaneous key presses were
-- given, and those that they made of them; whether bouncing events were ignored in some turn; and the
-- state.
pub record System : Type 0 where
  pub fired : List Item
  pub replaced : List Item
  pub replacement : List Item
  pub ignores : Bool
  pub state : State

abbrev pub append_fired : List Item → Option Item → List Item
append_fired xs none = xs
append_fired xs (some x) = xs ++ (x ∷ [])

abbrev pub is_on {ℓ} : {A : Type ℓ} → Option A → Bool
is_on none = false
is_on (some x) = true

abbrev pub begin : State → System
begin s = record { fired = []; replaced = []; replacement = []; ignores = false; state = s }

abbrev pub arrive : Item → System → System
arrive x y = record y { state = record y.state { queue = y.state.queue ++ (x ∷ []) } }

unfoldable pub turn : Outside → System → System
unfolding debounced remapped tick
turn o y = record {
  fired = append_fired y.fired (tick o y.state).0;
  replaced = y.replaced ++ debounced o y.state;
  replacement = y.replacement ++ remapped o y.state;
  ignores = y.ignores || is_on o.ignore_bouncing_events;
  state = (tick o y.state).1;
}

abbrev pub time_out : System → System
time_out y = record y { state = blocking_time_out y.state }

-- Each turn of the timer reads a configuration, rules and filters of its own. The index is the list
-- of the items that came, in order.
pub data Run : List Item → System → Type 0 where
  start : (s : State) → s.timeout ≡ none → s.queue ≡ [] → s.blocked_queue ≡ [] → Run [] (begin s)
  arrives :
      (came : List Item) (x : Item) (y : System) → Run came y → Run (came ++ (x ∷ [])) (arrive x y)
  fires : (came : List Item) (o : Outside) (y : System) → Run came y → Run came (turn o y)
  times_out : (came : List Item) (y : System) → Run came y → Run came (time_out y)
