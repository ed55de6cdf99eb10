-- ===== src/EventInputQueue/BlockUntilKeyUp/Order.antt =====
-- The order in which `BlockUntilKeyUpHandler` (core/kext/Classes/EventInputQueue.cpp) lets events
-- through.
use karabiner_cn.Base.{
  ℕ, ◌≡◌, refl, ap, ◌∙◌, inl, inr, Bool, true, false, not, ◌&&◌, List, [], ◌∷◌, ◌++◌, map,
  append_assoc, arith, if◌then◌else◌, Bool-cases,
}
use karabiner_cn.EventInputQueue.{Item, from_hardware}
use karabiner_cn.Params.{ParamsBase}
use karabiner_cn.EventInputQueue.BlockUntilKeyUp.{
  State, PressingEvent, mark, is_blocking, is_case1, is_case2, case1, case2, keep_blocking,
  end_blocking, move_up_event, need_to_block, do_block_key, modify_pressing_events,
  blocking_time_out,
}

-- An item without the record of where it was enqueued from.
abbrev pub unmarked : Item → Item
unmarked x = record x { enqueued_from = from_hardware }

abbrev pub events : List Item → List Item
events = map unmarked

-- All events that wait, those that are held back first.
abbrev pub waiting : State → List Item
waiting s = events (s.blocked_queue ++ s.queue)

events-mark : (xs ys : List Item) → events (map mark xs ++ ys) ≡ events (xs ++ ys)
events-mark [] ys = refl
events-mark (x ∷ xs) ys = ap (◌∷◌ (unmarked x)) (events-mark xs ys)

pub waiting-end_blocking : (s : State) → waiting (end_blocking s) ≡ waiting s
unfolding end_blocking
waiting-end_blocking s = events-mark s.blocked_queue s.queue

pub waiting-blocking_time_out : (s : State) → waiting (blocking_time_out s) ≡ waiting s
unfolding blocking_time_out
waiting-blocking_time_out s = waiting-end_blocking s

-- The waiting events after one step at a front item with a key.
abbrev pub moved : (ParamsBase → Bool) → Item → List Item → Bool → State → List Item
moved is_target front rest is_down s =
    if not is_down && is_target front.params
    then events (move_up_event front s.blocked_queue ++ rest)
    else events (s.blocked_queue ++ (front ∷ rest))

three_ways :
    (a b : Bool) (x y z : State) (u v : List Item)
    → waiting x ≡ u
    → waiting y ≡ v
    → waiting z ≡ v
    → let r : Bool × State = if a then (true, x) else if b then (true, y) else (false, z) in
      waiting r.1 ≡ (if a then u else v)
three_ways true b x y z u v p q r = p
three_ways false true x y z u v p q r = q
three_ways false false x y z u v p q r = r

waiting-case2 :
    (ms : ℕ) (front : Item) (rest : List Item) (s : State)
    → waiting (case2 ms front rest s) ≡ events (move_up_event front s.blocked_queue ++ rest)
unfolding case2 end_blocking
waiting-case2 ms front rest s = events-mark (move_up_event front s.blocked_queue) rest

waiting-case1 :
    (ms : ℕ) (front : Item) (rest : List Item) (s : State)
    → waiting (case1 ms front rest s) ≡ events (s.blocked_queue ++ (front ∷ rest))
unfolding case1 end_blocking
waiting-case1 ms front rest s =
    events-mark (s.blocked_queue ++ (front ∷ [])) rest
    ∙ ap events (append_assoc s.blocked_queue (front ∷ []) rest)

waiting-keep_blocking :
    (ms : ℕ) (front : Item) (rest : List Item) (s : State)
    → waiting (keep_blocking ms front rest s) ≡ events (s.blocked_queue ++ (front ∷ rest))
unfolding keep_blocking
waiting-keep_blocking ms front rest s = ap events (append_assoc s.blocked_queue (front ∷ []) rest)

waiting-need_to_block :
    (is_target : ParamsBase → Bool) (ms : ℕ) (front : Item) (rest : List Item) (is_down : Bool)
    (s : State)
    → waiting (need_to_block is_target ms front rest is_down s).1
      ≡ moved is_target front rest is_down s
unfolding need_to_block
waiting-need_to_block is_target ms front rest is_down s =
    three_ways (is_case2 is_target front is_down) (is_case1 front is_down s) (case2 ms front rest s)
      (case1 ms front rest s) (keep_blocking ms front rest s)
      (events (move_up_event front s.blocked_queue ++ rest))
      (events (s.blocked_queue ++ (front ∷ rest))) (waiting-case2 ms front rest s)
      (waiting-case1 ms front rest s) (waiting-keep_blocking ms front rest s)

two_ways :
    (a : Bool) (x : Bool × State) (y : State) (u v : List Item)
    → (a ≡ true → waiting x.1 ≡ u)
    → (a ≡ false → waiting y ≡ u)
    → let r : Bool × State = if a then x else (true, y) in waiting r.1 ≡ u
two_ways true x y u v p q = p refl
two_ways false x y u v p q = q refl

target_is_blocking :
    (is_target : ParamsBase → Bool) (front : Item) (es : List PressingEvent)
    → is_blocking is_target front es ≡ false
    → is_target front.params ≡ false
unfolding is_blocking
target_is_blocking is_target front es e = ground arith

pub waiting-do_block_key :
    (is_target : ParamsBase → Bool) (ms : ℕ) (front : Item) (rest : List Item) (is_down : Bool)
    (s : State)
    → s.queue ≡ front ∷ rest
    → waiting (do_block_key is_target ms front rest is_down s).1
      ≡ moved is_target front rest is_down s
unfolding do_block_key
waiting-do_block_key is_target ms front rest is_down s e =
    let es = modify_pressing_events front.params is_down s.pressing_events in
    let s' = record s { pressing_events = es } in
    elim (Bool-cases (is_blocking is_target front es)) [
      | inl b ↦ rw b (waiting-need_to_block is_target ms front rest is_down s')
      | inr n ↦ rw n (waiting-end_blocking s' ∙ not_moved n)
    ]
  where
    not_moved :
        is_blocking is_target front (modify_pressing_events front.params is_down s.pressing_events)
          ≡ false
        → waiting s ≡ moved is_target front rest is_down s
    not_moved n =
        rw
          (
            e,
            target_is_blocking is_target front
                (modify_pressing_events front.params is_down s.pressing_events) n,
          )
          (ground arith)
