-- ===== src/EventInputQueue/BlockUntilKeyUp/Invariant.antt =====
-- What `BlockUntilKeyUpHandler` (core/kext/Classes/EventInputQueue.cpp) keeps true of its state.
use karabiner_cn.Base.{
  ℕ, ◌≡◌, refl, ◌≢◌, ◌⊎◌, inl, inr, Bool, true, false, List, [], ◌∷◌, Option, none, some,
  if◌then◌else◌, All, All-append,
}
use karabiner_cn.EventInputQueue.{Item, EnqueuedFrom, from_hardware, from_blockedqueue}
use karabiner_cn.Params.{ParamsBase, iskeydown}
use karabiner_cn.EventInputQueue.BlockUntilKeyUp.{
  State, need_to_block, do_block_key, do_block_item, do_block_queue, do_block_until_key_up,
  blocking_time_out, end_blocking, case1, case2, keep_blocking, is_case1, is_case2, is_blocking,
  tick, do_fire, modify_pressing_events, remapped,
}
use karabiner_cn.EventInputQueue.BlockUntilKeyUp.Runs.{
  System, Run, start, arrives, fires, times_out, turn,
}

-- The item comes from the hardware and is down or up.
abbrev pub IsHeld : Item → Type 0
IsHeld x = (x.enqueued_from ≡ from_hardware) × (iskeydown x.params ≢ none)

-- Either nothing is held back and the timer is off, or the timer runs. Held back items come from the
-- hardware and are down or up.
pub record IsValid (s : State) : Type 0 where
  pub armed : ((s.timeout ≡ none) × (s.blocked_queue ≡ [])) ⊎ ((ms : ℕ) × (s.timeout ≡ some ms))
  pub held : All IsHeld s.blocked_queue

end_blocking-IsValid : (s : State) → IsValid (end_blocking s)
unfolding end_blocking
end_blocking-IsValid s = record { armed = inl (refl, refl); held = tt }

three_ways :
    (a b : Bool) (x y z : State)
    → IsValid x
    → IsValid y
    → IsValid z
    → let r : Bool × State = if a then (true, x) else if b then (true, y) else (false, z) in
      IsValid r.1
three_ways true b x y z p q r = p
three_ways false true x y z p q r = q
three_ways false false x y z p q r = r

case1-IsValid :
    (ms : ℕ) (front : Item) (rest : List Item) (s : State) → IsValid (case1 ms front rest s)
unfolding case1 end_blocking
case1-IsValid ms front rest s = record { armed = inl (refl, refl); held = tt }

case2-IsValid :
    (ms : ℕ) (front : Item) (rest : List Item) (s : State) → IsValid (case2 ms front rest s)
unfolding case2 end_blocking
case2-IsValid ms front rest s = record { armed = inl (refl, refl); held = tt }

keep_blocking-IsValid :
    (ms : ℕ) (front : Item) (rest : List Item) (s : State)
    → IsHeld front
    → All IsHeld s.blocked_queue
    → IsValid (keep_blocking ms front rest s)
unfolding keep_blocking
keep_blocking-IsValid ms front rest s hx hs = record {
  armed = inr (ms, refl);
  held = All-append IsHeld s.blocked_queue (front ∷ []) hs (hx, tt);
}

two_ways :
    (a : Bool) (x : Bool × State) (y : State)
    → IsValid x.1
    → IsValid y
    → let r : Bool × State = if a then x else (true, y) in IsValid r.1
two_ways true x y p q = p
two_ways false x y p q = q

do_block_key-IsValid :
    (is_target : ParamsBase → Bool) (ms : ℕ) (front : Item) (rest : List Item) (is_down : Bool)
    (s : State)
    → IsHeld front
    → All IsHeld s.blocked_queue
    → IsValid (do_block_key is_target ms front rest is_down s).1
unfolding do_block_key need_to_block
do_block_key-IsValid is_target ms front rest is_down s hx hs =
    let es = modify_pressing_events front.params is_down s.pressing_events in
    let s' = record s { pressing_events = es } in
    two_ways (is_blocking is_target front es) (need_to_block is_target ms front rest is_down s')
      (end_blocking s')
      (three_ways (is_case2 is_target front is_down) (is_case1 front is_down s')
        (case2 ms front rest s') (case1 ms front rest s') (keep_blocking ms front rest s')
        (case2-IsValid ms front rest s') (case1-IsValid ms front rest s')
        (keep_blocking-IsValid ms front rest s' hx hs))
      (end_blocking-IsValid s')

item-IsValid :
    (is_target : ParamsBase → Bool) (ms : ℕ) (o : EnqueuedFrom) (k : Option Bool) (front : Item)
    (rest : List Item) (s : State)
    → front.enqueued_from ≡ o
    → iskeydown front.params ≡ k
    → IsValid s
    → IsValid (do_block_item is_target ms o k front rest s).1
unfolding do_block_item
item-IsValid is_target ms from_blockedqueue k front rest s eo ek v = v
item-IsValid is_target ms from_hardware none front rest s eo ek v = v
item-IsValid is_target ms from_hardware (some is_down) front rest s eo ek v =
    do_block_key-IsValid is_target ms front rest is_down s (eo, λ n. cc) v.held

queue-IsValid :
    (is_target : ParamsBase → Bool) (ms : ℕ) (q : List Item) (s : State)
    → IsValid s
    → IsValid (do_block_queue is_target ms q s).1
unfolding do_block_queue
queue-IsValid is_target ms [] s v = v
queue-IsValid is_target ms (x ∷ xs) s v =
    item-IsValid is_target ms x.enqueued_from (iskeydown x.params) x xs s refl refl v

fire-IsValid : (fire : Bool) (q : List Item) (s : State) → IsValid s → IsValid (do_fire fire q s).1
unfolding do_fire
fire-IsValid false q s v = v
fire-IsValid true [] s v = v
fire-IsValid true (p ∷ rest) s v = record { armed = v.armed; held = v.held }

requeue-IsValid : (q : List Item) (s : State) → IsValid s → IsValid (record s { queue = q })
requeue-IsValid q s v = record { armed = v.armed; held = v.held }

-- In every run from empty queues with the blocking timer off, of arrivals, turns of the timer and
-- timeouts in any order, the blocking timer runs whenever an item is held back, and the held back
-- items come from the hardware and are down or up events. Each turn has settings and rules of its
-- own, and the rules for simultaneous key presses may make anything of the queue.
pub Run-IsValid : (came : List Item) (y : System) → Run came y → IsValid y.state
unfolding turn tick do_block_until_key_up blocking_time_out
Run-IsValid _ _ (start s off e b) = record { armed = inl (off, b); held = rw b tt }
Run-IsValid _ _ (arrives came x y r) = requeue-IsValid _ y.state (Run-IsValid came y r)
Run-IsValid _ _ (fires came o y r) =
    let s' = record y.state { queue = remapped o y.state } in
    let t = do_block_until_key_up o.is_target_event o.block_until_key_up_timeout s' in
    fire-IsValid t.0 t.1.queue t.1 (
      queue-IsValid o.is_target_event o.block_until_key_up_timeout s'.queue s'
        (requeue-IsValid (remapped o y.state) y.state (Run-IsValid came y r)))
Run-IsValid _ _ (times_out came y r) =
    let v = end_blocking-IsValid y.state in record { armed = v.armed; held = v.held }
