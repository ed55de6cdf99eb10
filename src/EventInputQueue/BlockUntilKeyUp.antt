-- ===== src/EventInputQueue/BlockUntilKeyUp.antt =====
-- `EventInputQueue::BlockUntilKeyUpHandler` of core/kext/Classes/EventInputQueue.cpp: while a key of
-- a __BlockUntilKeyUp__ rule is held, key events wait in a queue of their own.
-- `RemapClassManager::isTargetEventForBlockUntilKeyUp`, which asks the enabled rules, is an
-- argument, and so is the timeout of the configuration. The timer is the timeout that it is armed
-- with, if it is armed.
pub mod Runs
pub mod Counting
pub mod Conservation
pub mod Order
pub mod UpEvent
pub mod Invariant
use karabiner_cn.Base.{
  ℕ, Bool, true, false, not, ◌&&◌, ◌||◌, List, [], ◌∷◌, ◌++◌, map, Option, none, some,
  if◌then◌else◌, any_of,
}
use karabiner_cn.EventInputQueue.Bouncing.{Settings, ignore_bouncing}
use karabiner_cn.EventInputQueue.{Item, EnqueuedFrom, from_hardware, from_blockedqueue}
use karabiner_cn.FromEvent
use karabiner_cn.FromEvent.{FromEvent, of_params, is_target_down_event, is_target_up_event}
use karabiner_cn.Params.{ParamsBase, iskeydown}

pub record PressingEvent : Type 0 where
  pub params : ParamsBase
  pub from_event : FromEvent
  pub ignore : Bool

-- The static members, with `queue_` of the enclosing class.
pub record State : Type 0 where
  pub queue : List Item
  pub blocked_queue : List Item
  pub pressing_events : List PressingEvent
  pub timeout : Option ℕ

-- `endBlocking`: the blocked items return to the front of the queue, the last one first.
abbrev pub mark : Item → Item
mark x = record x { enqueued_from = from_blockedqueue }

unfoldable pub end_blocking : State → State
end_blocking s = record s {
  queue = map mark s.blocked_queue ++ s.queue;
  blocked_queue = [];
  timeout = none;
}

unfoldable pub set_ignore_to_all_pressing_events : List PressingEvent → List PressingEvent
set_ignore_to_all_pressing_events = map {A = PressingEvent} (λ p. record p { ignore = true })

-- `blockingTimeOut_timer_callback`, for which the timer is no longer armed.
unfoldable pub blocking_time_out : State → State
unfolding end_blocking set_ignore_to_all_pressing_events
blocking_time_out s =
    let s' = end_blocking s in
    record s' { pressing_events = set_ignore_to_all_pressing_events s'.pressing_events }

-- The loop that removes the pressing events of the key of the front event.
unfoldable pub remove_existing : ParamsBase → List PressingEvent → List PressingEvent
unfolding is_target_down_event is_target_up_event
remove_existing p [] = []
remove_existing p (e ∷ es) =
    if is_target_down_event e.from_event p || is_target_up_event e.from_event p
    then remove_existing p es
    else e ∷ remove_existing p es

-- The constructor of `PressingEvent`.
abbrev pub make_pressing_event : ParamsBase → PressingEvent
make_pressing_event p = record { params = p; from_event = of_params p; ignore = false }

unfoldable pub modify_pressing_events : ParamsBase → Bool → List PressingEvent → List PressingEvent
unfolding remove_existing of_params
modify_pressing_events p is_down es =
    let kept = remove_existing p es in
    if is_down then kept ++ (make_pressing_event p ∷ []) else kept

-- `isTargetDownEventInBlockedQueue`.
unfoldable pub is_target_down_event_in_blocked_queue : ParamsBase → List Item → Bool
unfolding is_target_down_event of_params
is_target_down_event_in_blocked_queue p = any_of λ x. is_target_down_event (of_params p) x.params

-- The loop of `isOrphanKeyUpEventExistsInBlockedQueue`, behind the items that it has visited.
unfoldable pub orphan_exists : List Item → List Item → Bool
unfolding iskeydown is_target_down_event_in_blocked_queue
orphan_exists visited [] = false
orphan_exists visited (x ∷ xs) =
    elim (iskeydown x.params) [
      | some false ↦ not (is_target_down_event_in_blocked_queue x.params (visited ++ (x ∷ [])))
      | _ ↦ false
    ]
    || orphan_exists (visited ++ (x ∷ [])) xs

-- The loop from the back that inserts the up event behind the last down event of its key.
unfoldable pub insert_after_down : Item → List Item → Option (List Item)
unfolding is_target_down_event of_params
insert_after_down front [] = none
insert_after_down front (x ∷ xs) = elim (insert_after_down front xs) [
  | some ys ↦ some (x ∷ ys)
  | none ↦
      if is_target_down_event (of_params front.params) x.params then some (x ∷ front ∷ xs) else none
]

unfoldable pub move_up_event : Item → List Item → List Item
unfolding insert_after_down
move_up_event front xs = elim (insert_after_down front xs) [ some ys ↦ ys | none ↦ front ∷ xs ]

-- The tests for Case 2 and Case 1 of the source.
abbrev pub is_case2 : (ParamsBase → Bool) → Item → Bool → Bool
is_case2 is_target front is_down = not is_down && is_target front.params

abbrev pub is_case1 : Item → Bool → State → Bool
is_case1 front is_down s =
    not is_down
    && not (orphan_exists [] s.blocked_queue)
    && is_target_down_event_in_blocked_queue front.params s.blocked_queue

-- Case 2: the up event moves behind its down event.
unfoldable pub case2 : ℕ → Item → List Item → State → State
unfolding end_blocking move_up_event
case2 ms front rest s = end_blocking (record s {
  queue = rest;
  blocked_queue = move_up_event front s.blocked_queue;
  timeout = some ms;
})

-- Case 1: the pressing events are ignored from now on.
unfoldable pub case1 : ℕ → Item → List Item → State → State
unfolding end_blocking set_ignore_to_all_pressing_events
case1 ms front rest s = end_blocking (record {
  queue = rest;
  blocked_queue = s.blocked_queue ++ (front ∷ []);
  pressing_events = set_ignore_to_all_pressing_events s.pressing_events;
  timeout = some ms;
})

unfoldable pub keep_blocking : ℕ → Item → List Item → State → State
keep_blocking ms front rest s = record s {
  queue = rest;
  blocked_queue = s.blocked_queue ++ (front ∷ []);
  timeout = some ms;
}

-- The part of `doBlockUntilKeyUp` behind `needToBlock`, for a queue of `front` and `rest`.
unfoldable pub need_to_block :
    (ParamsBase → Bool) → ℕ → Item → List Item → Bool → State → Bool × State
unfolding case1 case2 keep_blocking orphan_exists is_target_down_event_in_blocked_queue
need_to_block is_target ms front rest is_down s =
    if is_case2 is_target front is_down
    then (true, case2 ms front rest s)
    else if is_case1 front is_down s
    then (true, case1 ms front rest s)
    else (false, keep_blocking ms front rest s)

-- Some pressing event that is not ignored, or the front event, is a target event.
unfoldable pub is_blocking : (ParamsBase → Bool) → Item → List PressingEvent → Bool
is_blocking is_target front es =
    any_of (λ p. not p.ignore && is_target p.params) es || is_target front.params

-- The part behind the early returns.
unfoldable pub do_block_key :
    (ParamsBase → Bool) → ℕ → Item → List Item → Bool → State → Bool × State
unfolding modify_pressing_events need_to_block end_blocking is_blocking
do_block_key is_target ms front rest is_down s =
    let s' = record s {
      pressing_events = modify_pressing_events front.params is_down s.pressing_events;
    } in
    if is_blocking is_target front s'.pressing_events
    then need_to_block is_target ms front rest is_down s'
    else (true, end_blocking s')

-- The early returns: for an item that returns from the blocked queue, and for one that is neither
-- down nor up.
unfoldable pub do_block_item :
    (ParamsBase → Bool) → ℕ → EnqueuedFrom → Option Bool → Item → List Item → State → Bool × State
unfolding do_block_key
do_block_item is_target ms from_blockedqueue k front rest s = (true, s)
do_block_item is_target ms from_hardware none front rest s = (true, s)
do_block_item is_target ms from_hardware (some is_down) front rest s =
    do_block_key is_target ms front rest is_down s

-- The early return for an empty queue.
unfoldable pub do_block_queue : (ParamsBase → Bool) → ℕ → List Item → State → Bool × State
unfolding iskeydown do_block_item
do_block_queue is_target ms [] s = (true, s)
do_block_queue is_target ms (front ∷ rest) s =
    do_block_item is_target ms front.enqueued_from (iskeydown front.params) front rest s

-- `doBlockUntilKeyUp`: whether to call `doFire`, and the state.
unfoldable pub do_block_until_key_up : (ParamsBase → Bool) → ℕ → State → Bool × State
unfolding do_block_queue
do_block_until_key_up is_target ms s = do_block_queue is_target ms s.queue s

-- The part of `doFire` that acts on the queue, if it is called: the item in front is fired, and it
-- leaves the queue.
unfoldable pub do_fire : Bool → List Item → State → Option Item × State
do_fire false queue s = (none, s)
do_fire true [] s = (none, s)
do_fire true (p ∷ rest) s = (some p, record s { queue = rest })

-- What one turn of the timer reads: the setting general_ignore_bouncing_events with its thresholds and
-- the clock, what the loop on `remap_simultaneouskeypresses` makes of the queue,
-- `isTargetEventForBlockUntilKeyUp` of the enabled rules, and the timeout of the configuration.
pub record Outside : Type 0 where
  pub ignore_bouncing_events : Option Settings
  pub remap_simultaneouskeypresses : List Item → List Item
  pub is_target_event : ParamsBase → Bool
  pub block_until_key_up_timeout : ℕ

-- The queue behind the first loop, and the one behind the second.
unfoldable pub debounced : Outside → State → List Item
unfolding ignore_bouncing
debounced o s = ignore_bouncing o.ignore_bouncing_events s.queue

unfoldable pub remapped : Outside → State → List Item
unfolding debounced
remapped o s = o.remap_simultaneouskeypresses (debounced o s)

-- One turn of `fire_timer_callback`, as far as it acts on the queue and on this handler.
unfoldable pub tick : Outside → State → Option Item × State
unfolding remapped do_block_until_key_up do_fire
tick o s =
    let s' = record s { queue = remapped o s } in
    let r = do_block_until_key_up o.is_target_event o.block_until_key_up_timeout s' in
    do_fire r.0 r.1.queue r.1
