-- ===== src/Tests/Output.antt =====
-- Runs of the theorems on the output queue.
use karabiner_cn.Base.{◌≡◌, refl, inl, Bool, true, false, [], ◌∷◌, ◌++◌, map, none, arith}
use karabiner_cn.Base.Int.{pos}
use karabiner_cn.EventOutputQueue.{State, Item, World, physical_down, push}
use karabiner_cn.EventOutputQueue.FireModifiers.{fire}
use karabiner_cn.EventOutputQueue.FireModifiers.Difference.{IsReady}
use karabiner_cn.EventOutputQueue.FireModifiers.Fires.{Fires, fire_lem}
use karabiner_cn.EventOutputQueue.Timer.{Outside, run}
use karabiner_cn.EventOutputQueue.Timer.Drain.{start, pushed, queue-run}
use karabiner_cn.EventOutputQueue.Timer.Order.{queue_order-run, quiet, all_params, sent_params}
use karabiner_cn.Flags.Consistent.{zero-IsConsistent}
use karabiner_cn.KeyCodeModifierFlagPairs.{modifier_flags}
use karabiner_cn.LastKeys.{LastPhysicalKey, update_pressed, update_released}
use karabiner_cn.LastKeys.Laws.{update_pressed-update_released, expected, entry}
use karabiner_cn.FromEvent.{of_params, is_target_event}
use karabiner_cn.Params.{wait, iskeydown, is_repeat}
use karabiner_cn.RemapFunc.DropAllKeys
use karabiner_cn.RemapFunc.DropAllKeys.Pairs
use karabiner_cn.ModifierFlag
use karabiner_cn.Tests.{pairs, board, key_event, off_items}

abbrev world : World
world = record { now = 50; current_serial_number = 3; pairs = pairs }

-- Nothing is down, and the queue is empty.
abbrev silent : State
silent = record {
  queue = [];
  fire_timer = none;
  previous_buttons = 0;
  last_flags = 0;
  is_ignore_physical_up_event = false;
  last_buttons = 0;
  press_down_keys = [];
  last_sent = record { data_type = 0; value = 0; event_type = 0; ic = 0 };
  flag_status = off_items;
  board = board;
}

silent-IsReady : IsReady world silent
silent-IsReady = record {
  registered = refl;
  distinct = (refl, (refl, (refl, (refl, (refl, (refl, (refl, (refl, (refl, (refl, tt))))))))));
  no_numpad = refl;
  consistent = zero-IsConsistent (modifier_flags pairs);
}

-- The left shift goes down.
fire_lem_example : Fires world 0x20002 silent (fire world 5 physical_down 0x20002 40 silent)
fire_lem_example = fire_lem world 5 0x20002 40 physical_down silent silent-IsReady (inl refl)

abbrev outside : Outside
outside = record {
  cancels = λ q n. false;
  handles_after_enqueued = λ p. false;
  applies_to_consumer = λ p. true;
  wait_before_and_after_a_modifier_key_event = 10;
  wait_before_and_after_a_click_event = 10;
}

-- The space key goes down, and there is a wait.
abbrev two_events : State
two_events = push world (wait (pos 7)) 5 (push world (key_event 49 true) 5 silent)

queue-run_example : (run world (outside ∷ outside ∷ []) two_events).0.queue ≡ []
unfolding push
queue-run_example =
    queue-run world (outside ∷ outside ∷ []) two_events
      (pushed world (wait (pos 7)) 5 _
        (pushed world (key_event 49 true) 5 silent (start silent refl)))
      (omega arith)

queue_order-run_example :
    sent_params (run world (map quiet (outside ∷ [])) two_events).1
      ++ all_params (run world (map quiet (outside ∷ [])) two_events).0.queue
    ≡ all_params two_events.queue
unfolding push
queue_order-run_example = queue_order-run world (outside ∷ []) two_events refl

abbrev none_yet : LastPhysicalKey
none_yet = record { data_type = 0; value = 0; ic = 0 }

update_pressed-update_released_example :
    (
      update_pressed 50 (key_event 49 true) none_yet,
      update_released 50 (key_event 49 true) none_yet,
    )
    ≡ expected
        (iskeydown (key_event 49 true))
        (entry (of_params (key_event 49 true)) 50)
        none_yet
        none_yet
update_pressed-update_released_example =
    update_pressed-update_released 50 (key_event 49 true) none_yet none_yet

abbrev sent_item : Bool → Item
sent_item is_down = record {
  params = key_event 17 is_down;
  autogen_id = 5;
  serial_number = 3;
  canceled = false;
}

-- The rule, with its modifiers on or off.
abbrev rule : Bool → DropAllKeys.State
rule matched = record {
  target_serial_numbers = 3 ∷ [];
  from_modifier_flags = ModifierFlag.fn ∷ [];
  drop_key = true;
  drop_consumer_key = false;
  drop_pointing_button = false;
  modifier_matched = matched;
  do_cancel = true;
  dropped = [];
  autogen_id = 2;
}

-- The key T goes down while the modifiers are on, and up after they have gone off.
cancel-up_as_down_example :
    (DropAllKeys.cancel pairs
      (record (rule false) {
        dropped =
            DropAllKeys.Pairs.run pairs []
              (DropAllKeys.cancel pairs (rule true) (sent_item true)).1;
      })
      (sent_item false)).0
    ≡ (DropAllKeys.cancel pairs (rule true) (sent_item true)).0
unfolding DropAllKeys.looks_at DropAllKeys.Pairs.drops DropAllKeys.found iskeydown is_repeat
    is_target_event of_params
cancel-up_as_down_example =
    DropAllKeys.Pairs.cancel-up_as_down pairs (rule true) (rule false) (sent_item true)
      (sent_item false) [] refl refl refl refl refl refl refl refl refl tt
