-- ===== src/Tests/Queue.antt =====
-- Runs of the theorems on the queue of hardware events.
use karabiner_cn.Base.{
  leb, length, ◌≡◌, refl, ◌⊎◌, true, false, List, [], ◌∷◌, ◌++◌, none, some, arith, any_of,
}
use karabiner_cn.Base.Int.{ℤ, pos, negsuc, ◌+ℤ◌}
use karabiner_cn.Direction.{
  get_scroll_wheel_from_delta, get_pointing_relative_from_delta, negate, opposite, direction-negate,
}
use karabiner_cn.DeltaBuffer.{cleared, is_full, sum}
use karabiner_cn.DeltaBuffer.Window.{push_all, push_all_lem, moves, move_at, Holds}
use karabiner_cn.EventInputQueue.{Item}
use karabiner_cn.EventInputQueue.BlockUntilKeyUp.{
  State, Outside, move_up_event, do_block_until_key_up, tick,
}
use karabiner_cn.EventInputQueue.BlockUntilKeyUp.Order.{waiting}
use karabiner_cn.EventInputQueue.BlockUntilKeyUp.UpEvent.{
  move_up_event_lem, do_block-order, LastDown, is_down_of,
}
use karabiner_cn.EventInputQueue.BlockUntilKeyUp.Runs.{
  System, Run, start, arrives, fires, times_out, begin, arrive, turn, time_out,
}
use karabiner_cn.EventInputQueue.BlockUntilKeyUp.Conservation.{Accounts, count-Run}
use karabiner_cn.EventInputQueue.BlockUntilKeyUp.Invariant.{IsValid, Run-IsValid}
use karabiner_cn.EventInputQueue.Bouncing.{remove_bouncing, remove_bouncing_fuel}
use karabiner_cn.EventInputQueue.Bouncing.Laws.{remove_bouncing_lem, IsBalanced}
use karabiner_cn.EventInputQueue.Bouncing.Reduction.{Reduces}
use karabiner_cn.EventInputQueue.Bouncing.Pair.{BouncingPair}
use karabiner_cn.EventInputQueue.Pointer.{push_relative_pointer}
use karabiner_cn.EventInputQueue.Pointer.Laws.{replay, replay-push_relative_pointer}
use karabiner_cn.Params.{iskeydown}
use karabiner_cn.Tests.{queue_item, is_space, settings}

abbrev empty_state : State
empty_state = record { queue = []; blocked_queue = []; pressing_events = []; timeout = none }

abbrev space_down : Item
space_down = queue_item 49 true 10

abbrev t_down : Item
t_down = queue_item 17 true 20

abbrev space_up : Item
space_up = queue_item 49 false 30

-- Each turn ignores bouncing events, and no rule changes the queue.
abbrev outside : Outside
outside = record {
  ignore_bouncing_events = some settings;
  remap_simultaneouskeypresses = λ queue. queue;
  is_target_event = is_space;
  block_until_key_up_timeout = 1000;
}

-- Space goes down and is held back, T goes down, and the blocking times out.
abbrev came : List Item
came = space_down ∷ t_down ∷ []

abbrev system1 : System
system1 = arrive space_down (begin empty_state)

abbrev system4 : System
system4 = time_out (arrive t_down (turn outside system1))

held_back : (tick outside system1.state).0 ≡ none
unfolding tick remove_bouncing_fuel
held_back = refl

run4 : Run came system4
run4 = times_out came (arrive t_down (turn outside system1)) (
    arrives (space_down ∷ []) t_down (turn outside system1) (
      fires (space_down ∷ []) outside system1
        (arrives [] space_down (begin empty_state) (start empty_state refl refl refl))))

count-Run_example : (removed : List Item) × Accounts came removed system4
count-Run_example = count-Run came system4 run4

Run-IsValid_example : IsValid system4.state
Run-IsValid_example = Run-IsValid came system4 run4

move_up_event_lem_example :
    ((any_of (is_down_of space_up) came ≡ false) × (move_up_event space_up came ≡ space_up ∷ came))
    ⊎ ((l : LastDown space_up came) × (move_up_event space_up came
          ≡ l.before ++ (l.down ∷ space_up ∷ l.after)))
move_up_event_lem_example = move_up_event_lem space_up came

do_block-order_example :
    waiting (do_block_until_key_up is_space 1000 system1.state).1 ≡ waiting system1.state
unfolding iskeydown
do_block-order_example = do_block-order is_space 1000 system1.state refl

-- The up and the down event of T are five milliseconds apart.
abbrev bouncing : List Item
bouncing = queue_item 17 true 1 ∷ queue_item 17 false 40 ∷ queue_item 17 true 45 ∷ []

remove_bouncing_lem_example :
    (ys : List Item) × (remove_bouncing settings bouncing ≡ some ys)
    × Reduces settings bouncing ys
    × (¬ BouncingPair settings ys)
    × IsBalanced bouncing ys
remove_bouncing_lem_example = remove_bouncing_lem settings bouncing

replay-push_relative_pointer_example : replay 3 (push_relative_pointer true 3 6 (pos 5) (pos 0)) ≡ 6
replay-push_relative_pointer_example =
    replay-push_relative_pointer true 3 6 (pos 5) (pos 0) (omega arith) (omega arith)

-- Six moves to the right behind one to the left.
abbrev right_moves : List ℤ
right_moves = negsuc 3 ∷ pos 1 ∷ pos 2 ∷ pos 3 ∷ pos 4 ∷ pos 5 ∷ pos 6 ∷ []

push_all_lem_example :
    let b = push_all right_moves cleared in
    let xs = moves right_moves [] in
    Holds b xs
    × (is_full b ≡ leb 5 (length xs))
    × (sum b
        ≡ pos 0 +ℤ move_at xs 4 +ℤ move_at xs 3 +ℤ move_at xs 2 +ℤ move_at xs 1 +ℤ move_at xs 0)
push_all_lem_example = push_all_lem right_moves

-- A scroll to the right and down, and its reverse.
direction-negate_example :
    (get_scroll_wheel_from_delta (negate (negsuc 4)) (negate (negsuc 9))
      ≡ opposite (get_scroll_wheel_from_delta (negsuc 4) (negsuc 9)))
    × (get_pointing_relative_from_delta (negate (negsuc 4)) (negate (negsuc 9))
        ≡ opposite (get_pointing_relative_from_delta (negsuc 4) (negsuc 9)))
direction-negate_example = direction-negate (negsuc 4) (negsuc 9)
