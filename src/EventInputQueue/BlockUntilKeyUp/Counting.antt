-- ===== src/EventInputQueue/BlockUntilKeyUp/Counting.antt =====
-- Counts of items before and behind one call of `doBlockUntilKeyUp`
-- (core/kext/Classes/EventInputQueue.cpp).
use karabiner_cn.Base.{
  ℕ, ◌+◌, ◌≡◌, refl, sym, ap, ◌∙◌, inl, inr, Bool, List, [], ◌∷◌, ◌++◌, map-append, Option, none,
  some, arith, Bool-cases, Option-cases,
}
use karabiner_cn.EventInputQueue.{Item, EnqueuedFrom, from_hardware, from_blockedqueue}
use karabiner_cn.FromEvent.{of_params, is_target_down_event}
use karabiner_cn.Params.{ParamsBase, iskeydown}
use karabiner_cn.EventInputQueue.BlockUntilKeyUp.{
  State, insert_after_down, move_up_event, do_block_item, do_block_queue, do_block_until_key_up,
}
use karabiner_cn.EventInputQueue.Bouncing.Removed.{count, count-append}
use karabiner_cn.EventInputQueue.BlockUntilKeyUp.Order.{
  unmarked, events, waiting, moved, waiting-do_block_key,
}

Inserted : (f : Item → Bool) (front : Item) (xs : List Item) → Option (List Item) → Type 0
Inserted f front xs none = Unit
Inserted f front xs (some ys) = count f (events ys) ≡ count f (events (front ∷ xs))

count-insert_after_down :
    (f : Item → Bool) (front : Item) (xs : List Item)
    → Inserted f front xs (insert_after_down front xs)
unfolding insert_after_down count Inserted
count-insert_after_down f front [] = tt
count-insert_after_down f front (x ∷ xs) = elim (Option-cases (insert_after_down front xs)) [
  | inl e ↦ elim (Bool-cases (is_target_down_event (of_params front.params) x.params)) [
    | inl d ↦ rw (e, d) (ground arith)
    | inr d ↦ rw (e, d) tt
  ]
  | inr (ys, e) ↦ let ih = rw e at (count-insert_after_down f front xs) in rw e (ground arith)
]

count-found :
    (f : Item → Bool) (front : Item) (xs : List Item) (o : Option (List Item))
    → Inserted f front xs o
    → count f (events (elim o [ some ys ↦ ys | none ↦ front ∷ xs ])) ≡ count f (events (front ∷ xs))
unfolding Inserted
count-found f front xs none h = refl
count-found f front xs (some ys) h = h

count-move_up_event :
    (f : Item → Bool) (front : Item) (xs : List Item)
    → count f (events (move_up_event front xs)) ≡ count f (events (front ∷ xs))
unfolding move_up_event
count-move_up_event f front xs =
    count-found f front xs (insert_after_down front xs) (count-insert_after_down f front xs)

pub count-events-append :
    (f : Item → Bool) (xs ys : List Item)
    → count f (events (xs ++ ys)) ≡ count f (events xs) + count f (events ys)
count-events-append f xs ys =
    ap (count f) (map-append unmarked xs ys) ∙ count-append f (events xs) (events ys)

count-moved :
    (f : Item → Bool) (is_target : ParamsBase → Bool) (front : Item) (rest : List Item)
    (is_down : Bool) (s : State)
    → count f (moved is_target front rest is_down s)
      ≡ count f (events (s.blocked_queue ++ (front ∷ rest)))
unfolding count
count-moved f is_target front rest is_down s = ground (
  arith,
  count-events-append f s.blocked_queue (front ∷ rest),
  count-events-append f (move_up_event front s.blocked_queue) rest,
  count-move_up_event f front s.blocked_queue,
)

count-do_block_item :
    (f : Item → Bool) (is_target : ParamsBase → Bool) (ms : ℕ) (o : EnqueuedFrom) (k : Option Bool)
    (front : Item) (rest : List Item) (s : State)
    → s.queue ≡ front ∷ rest
    → count f (waiting (do_block_item is_target ms o k front rest s).1) ≡ count f (waiting s)
unfolding do_block_item
count-do_block_item f is_target ms from_blockedqueue k front rest s e = refl
count-do_block_item f is_target ms from_hardware none front rest s e = refl
count-do_block_item f is_target ms from_hardware (some is_down) front rest s e =
    ap (count f) (waiting-do_block_key is_target ms front rest is_down s e)
    ∙ count-moved f is_target front rest is_down s
    ∙ ap (λ q. count f (events (s.blocked_queue ++ q))) (sym e)

count-do_block_queue :
    (f : Item → Bool) (is_target : ParamsBase → Bool) (ms : ℕ) (q : List Item) (s : State)
    → s.queue ≡ q
    → count f (waiting (do_block_queue is_target ms q s).1) ≡ count f (waiting s)
unfolding do_block_queue
count-do_block_queue f is_target ms [] s e = refl
count-do_block_queue f is_target ms (front ∷ rest) s e =
    count-do_block_item f is_target ms front.enqueued_from (iskeydown front.params) front rest s e

-- One call of `doBlockUntilKeyUp` neither loses an event nor makes one: for every test that does not
-- look at where an item was enqueued from, as many of the held back and the queued items pass it
-- behind the call as before.
pub count-do_block :
    (f : Item → Bool) (is_target : ParamsBase → Bool) (ms : ℕ) (s : State)
    → count f (waiting (do_block_until_key_up is_target ms s).1) ≡ count f (waiting s)
unfolding do_block_until_key_up
count-do_block f is_target ms s = count-do_block_queue f is_target ms s.queue s refl
