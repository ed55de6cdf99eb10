-- ===== src/EventInputQueue/BlockUntilKeyUp/Conservation.antt =====
-- The account of a run of the queue with `BlockUntilKeyUpHandler`
-- (core/kext/Classes/EventInputQueue.cpp): what came in, what was fired, and what became of the rest.
use karabiner_cn.Base.{
  ◌+◌, ◌≡◌, refl, ap, ap₂, ◌||◌, Bool, true, false, List, [], ◌∷◌, ◌++◌, Option, none, some, arith,
}
use karabiner_cn.EventInputQueue.{Item}
use karabiner_cn.FromEvent.{FromEvent}
use karabiner_cn.EventInputQueue.BlockUntilKeyUp.{
  State, do_block_until_key_up, tick, do_fire, Outside, debounced, remapped,
}
use karabiner_cn.EventInputQueue.BlockUntilKeyUp.Runs.{
  System, Run, start, arrives, fires, times_out, arrive, turn, time_out, append_fired, is_on,
}
use karabiner_cn.EventInputQueue.Bouncing.{Settings}
use karabiner_cn.EventInputQueue.Bouncing.Laws.{downs, ups}
use karabiner_cn.EventInputQueue.Bouncing.Removed.{
  count, count-append, downs-append, ups-append, Splits, Removes, ignore_bouncing-Removes,
}
use karabiner_cn.EventInputQueue.BlockUntilKeyUp.Order.{
  unmarked, events, waiting, waiting-blocking_time_out,
}
use karabiner_cn.EventInputQueue.BlockUntilKeyUp.Counting.{count-events-append, count-do_block}

abbrev pub everything : System → List Item
everything y = events y.fired ++ waiting y.state

count-everything :
    (f : Item → Bool) (y : System)
    → count f (everything y) ≡ count f (events y.fired) + count f (waiting y.state)
count-everything f y = count-append f (events y.fired) (waiting y.state)

count-waiting :
    (f : Item → Bool) (s : State)
    → count f (waiting s) ≡ count f (events s.blocked_queue) + count f (events s.queue)
count-waiting f s = count-events-append f s.blocked_queue s.queue

-- Firing is only done with nothing held back.
fires_count :
    (f : Item → Bool) (fire : Bool) (q fired : List Item) (s : State)
    → s.queue ≡ q
    → let r = do_fire fire q s in
      count f (events (append_fired fired r.0)) + count f (waiting r.1)
      ≡ count f (events fired) + count f (waiting s)
unfolding do_fire count
fires_count f false q fired s e = refl
fires_count f true [] fired s e = refl
fires_count f true (p ∷ rest) fired s e = ground (
  arith,
  count-events-append f fired (p ∷ []),
  count-waiting f s,
  count-waiting f (record s { queue = rest }),
  ap (λ q. count f (events q)) e,
)

-- What a run keeps account of: the fired items with the waiting ones, those that were removed as
-- bouncing and those that the rules for simultaneous key presses were given, against the items that
-- came and those that the rules made.
pub record Accounts (came removed : List Item) (y : System) : Type 0 where
  pub sums :
      (f : Item → Bool)
      → count f (everything y) + count f (events removed) + count f (events y.replaced)
        ≡ count f (events came) + count f (events y.replacement)
  pub balanced : (e : FromEvent) → downs e removed ≡ ups e removed
  pub idle : y.ignores ≡ false → removed ≡ []

count-events :
    (f : Item → Bool) (xs : List Item) → count f (events xs) ≡ count (λ x. f (unmarked x)) xs
unfolding count
count-events f [] = refl
count-events f (x ∷ xs) = ground (arith, count-events f xs)

-- What was in the queue is in it behind the first loop, or was removed.
count-debounced :
    (f : Item → Bool) (o : Outside) (s : State) (removed : List Item)
    → Splits s.queue (debounced o s) removed
    → count f (events s.queue) ≡ count f (events (debounced o s)) + count f (events removed)
count-debounced f o s removed h = omega (
  arith,
  h (λ x. f (unmarked x)),
  count-events f s.queue,
  count-events f (debounced o s),
  count-events f removed,
)

turn_sums :
    (f : Item → Bool) (came removed more : List Item) (o : Outside) (y : System)
    → Splits y.state.queue (debounced o y.state) more
    → count f (everything y) + count f (events removed) + count f (events y.replaced)
      ≡ count f (events came) + count f (events y.replacement)
    → count f (everything (turn o y))
        + count f (events (removed ++ more))
        + count f (events (turn o y).replaced)
      ≡ count f (events came) + count f (events (turn o y).replacement)
unfolding turn tick
turn_sums f came removed more o y h ih =
    let s' = record y.state { queue = remapped o y.state } in
    let t = do_block_until_key_up o.is_target_event o.block_until_key_up_timeout s' in
    omega (
      arith,
      ih,
      count-debounced f o y.state more h,
      count-everything f y,
      count-everything f (turn o y),
      count-waiting f y.state,
      count-waiting f s',
      count-do_block f o.is_target_event o.block_until_key_up_timeout s',
      fires_count f t.0 t.1.queue y.fired t.1 refl,
      count-events-append f removed more,
      count-events-append f y.replaced (debounced o y.state),
      count-events-append f y.replacement (remapped o y.state),
    )

arrive_sums :
    (f : Item → Bool) (came removed : List Item) (x : Item) (y : System)
    → count f (everything y) + count f (events removed) + count f (events y.replaced)
      ≡ count f (events came) + count f (events y.replacement)
    → count f (everything (arrive x y)) + count f (events removed) + count f (events y.replaced)
      ≡ count f (events (came ++ (x ∷ []))) + count f (events y.replacement)
arrive_sums f came removed x y ih = omega (
  arith,
  ih,
  count-everything f y,
  count-everything f (arrive x y),
  count-waiting f y.state,
  count-waiting f (arrive x y).state,
  count-events-append f y.state.queue (x ∷ []),
  count-events-append f came (x ∷ []),
)

turn-Accounts :
    (came removed more : List Item) (o : Outside) (y : System)
    → Accounts came removed y
    → Removes o.ignore_bouncing_events y.state.queue (debounced o y.state) more
    → Accounts came (removed ++ more) (turn o y)
unfolding turn
turn-Accounts came removed more o y a r = record {
  sums = λ f. turn_sums f came removed more o y r.split (a.sums f);
  balanced = λ e.
      omega
        (arith, a.balanced e, r.balanced e, downs-append e removed more, ups-append e removed more);
  idle = λ off. none_removed o.ignore_bouncing_events r.idle off;
}
  where
    none_removed :
        (w : Option Settings)
        → (w ≡ none → more ≡ [])
        → (y.ignores || is_on w) ≡ false
        → removed ++ more ≡ []
    none_removed none k off = ap₂ ◌++◌ (a.idle (ground arith)) (k refl)
    none_removed (some c) k off = absurd (ground arith)

-- In every run from empty queues with the blocking timer off, of arrivals, turns of the timer and
-- timeouts in any order, each turn with settings and rules of its own, the items are accounted for.
-- There is a list of removed items such that for every test that does not look at where an item was
-- enqueued from, as many of the fired, the held back, the queued and the removed items with the
-- queues given to the rules for simultaneous key presses pass it as of the items that came with the
-- queues that these rules made. The removed items are as many down events as up events of each
-- object, and there are none unless bouncing events were ignored in some turn.
pub count-Run :
    (came : List Item) (y : System) → Run came y → (removed : List Item) × Accounts came removed y
unfolding count downs ups debounced
count-Run _ _ (start s off e b) =
    ([], record { sums = λ f. rw (e, b) refl; balanced = λ k. refl; idle = λ k. refl })
count-Run _ _ (arrives came x y r) =
    let (removed, a) = count-Run came y r in
    (
      removed,
      record {
        sums = λ f. arrive_sums f came removed x y (a.sums f);
        balanced = a.balanced;
        idle = a.idle;
      },
    )
count-Run _ _ (fires came o y r) =
    let (removed, a) = count-Run came y r in
    let (more, m) = ignore_bouncing-Removes o.ignore_bouncing_events y.state.queue in
    (removed ++ more, turn-Accounts came removed more o y a m)
count-Run _ _ (times_out came y r) =
    let (removed, a) = count-Run came y r in
    (
      removed,
      record {
        sums = λ f. omega (
          arith,
          a.sums f,
          count-everything f y,
          count-everything f (time_out y),
          ap (count f) (waiting-blocking_time_out y.state),
        );
        balanced = a.balanced;
        idle = a.idle;
      },
    )
