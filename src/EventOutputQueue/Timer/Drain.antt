-- ===== src/EventOutputQueue/Timer/Drain.antt =====
-- The timer of `EventOutputQueue` (core/kext/Classes/EventOutputQueue.cpp) brings out the queue.
use karabiner_cn.Base.{
  ℕ, ◌+◌, ◌-◌, ◌≤◌, ◌≡◌, ◌≢◌, refl, ap, sym, ◌∙◌, Bool, true, false, List, [], ◌∷◌, Option, none,
  some, if◌then◌else◌, arith, length,
}
use karabiner_cn.Params.{ParamsBase}
use karabiner_cn.EventOutputQueue.{
  State, World, Item, push, push_to_output_queue, sticky_clear, clears_sticky,
  set_timeout_if_inactive,
}
use karabiner_cn.EventOutputQueue.Timer.{
  Outside, cancel_from, delete_canceled, fire_front, fire_timer_callback, fire_if_active, tick, run,
}

-- The timer is active, unless there is nothing to send.
IsArmed : State → Type 0
IsArmed s = s.fire_timer ≡ none → s.queue ≡ []

set_timeout-active : (ms : ℕ) (t : Option ℕ) → set_timeout_if_inactive ms t ≢ none
set_timeout-active ms none e = cc
set_timeout-active ms (some t) e = cc

fire_timer-sticky_clear :
    (c : Bool) (s : State) → (if c then sticky_clear s else s).fire_timer ≡ s.fire_timer
unfolding sticky_clear
fire_timer-sticky_clear true s = refl
fire_timer-sticky_clear false s = refl

-- Behind a `push` the timer is active.
push-IsArmed :
    (w : World) (p : ParamsBase) (autogen_id : ℕ) (s : State) → IsArmed (push w p autogen_id s)
unfolding IsArmed push push_to_output_queue
push-IsArmed w p autogen_id s e = absurd (
    set_timeout-active 0 s.fire_timer
      (sym (fire_timer-sticky_clear (clears_sticky p) (push_to_output_queue w p autogen_id s)) ∙ e))

length-cancel_from : (c : ℕ → Bool) (n : ℕ) (q : List Item) → length (cancel_from c n q) ≡ length q
unfolding cancel_from
length-cancel_from c n [] = refl
length-cancel_from c n (i ∷ is) = ground (arith, length-cancel_from c (n + 1) is)

length-delete_canceled : (q : List Item) → length (delete_canceled q) ≤ length q
unfolding delete_canceled
length-delete_canceled [] = omega arith
length-delete_canceled (i ∷ is) = ground (arith, length-delete_canceled is)

fire_front-IsArmed :
    (w : World) (o : Outside) (q : List Item) (s : State) → IsArmed (fire_front w o q s).0
unfolding IsArmed fire_front
fire_front-IsArmed w o [] s e = refl
fire_front-IsArmed w o (i ∷ []) s e = refl
fire_front-IsArmed w o (i ∷ j ∷ rest) s e = cc (e)

length-fire_front :
    (w : World) (o : Outside) (q : List Item) (s : State)
    → length (fire_front w o q s).0.queue ≤ length q - 1
unfolding fire_front
length-fire_front w o [] s = omega arith
length-fire_front w o (i ∷ []) s = omega arith
length-fire_front w o (i ∷ j ∷ rest) s = ground arith

tick-IsArmed : (w : World) (o : Outside) (s : State) → IsArmed s → IsArmed (tick w o s).0
unfolding tick fire_if_active fire_timer_callback IsArmed
tick-IsArmed w o s a = elim s.fire_timer as (λ t. IsArmed (fire_if_active w o s t).0) [
  | none ↦ a
  | some t ↦
      fire_front-IsArmed w o (delete_canceled (cancel_from (o.cancels s.queue) 0 s.queue))
        (record s { fire_timer = none })
]

-- A tick takes an item off the queue.
length-tick :
    (w : World) (o : Outside) (s : State)
    → IsArmed s
    → length (tick w o s).0.queue ≤ length s.queue - 1
unfolding tick fire_if_active fire_timer_callback IsArmed
length-tick w o s a =
    elim s.fire_timer
        as (λ t.
          (t ≡ none → s.queue ≡ [])
          → length (fire_if_active w o s t).0.queue ≤ length s.queue - 1) [
            | none ↦ λ a. omega (arith, ap length (a refl))
            | some t ↦ λ a. omega (
              arith,
              length-fire_front w o (delete_canceled (cancel_from (o.cancels s.queue) 0 s.queue))
                  (record s { fire_timer = none }),
              length-delete_canceled (cancel_from (o.cancels s.queue) 0 s.queue),
              length-cancel_from (o.cancels s.queue) 0 s.queue,
            )
          ]
      a

armed-run :
    (w : World) (os : List Outside) (s : State)
    → IsArmed s
    → length s.queue ≤ length os
    → (run w os s).0.queue ≡ []
unfolding run
armed-run w [] s a h =
    elim s.queue as (λ q. length q ≤ 0 → q ≡ []) [
      | [] ↦ λ h. refl
      | i ∷ is ↦ λ h. absurd (omega arith)
    ]
      h
armed-run w (o ∷ os) s a h =
    armed-run w os (tick w o s).0 (tick-IsArmed w o s a) (omega (arith, length-tick w o s a, h))

-- The states that the queue gets into: a start with nothing in it, `push`, runs of the timer, and
-- changes of other variables.
pub data Reachable : State → Type 0 where
  start : (s : State) → s.queue ≡ [] → Reachable s
  pushed :
      (w : World) (p : ParamsBase) (autogen_id : ℕ) (s : State)
      → Reachable s
      → Reachable (push w p autogen_id s)
  ticked : (w : World) (o : Outside) (s : State) → Reachable s → Reachable (tick w o s).0
  changed :
      (s s' : State)
      → Reachable s
      → s'.queue ≡ s.queue
      → s'.fire_timer ≡ s.fire_timer
      → Reachable s'

Reachable-IsArmed : (s : State) → Reachable s → IsArmed s
unfolding IsArmed
Reachable-IsArmed _ (start s h) = λ e. h
Reachable-IsArmed _ (pushed w p autogen_id s' r) = push-IsArmed w p autogen_id s'
Reachable-IsArmed _ (ticked w o s' r) = tick-IsArmed w o s' (Reachable-IsArmed s' r)
Reachable-IsArmed _ (changed s' s r q t) = λ e. q ∙ Reachable-IsArmed s' r (sym t ∙ e)

-- From any state that the queue gets into, as many runs of the timer as there are items in the queue
-- empty it, whatever the rules cancel.
pub queue-run :
    (w : World) (os : List Outside) (s : State)
    → Reachable s
    → length s.queue ≤ length os
    → (run w os s).0.queue ≡ []
queue-run w os s r h = armed-run w os s (Reachable-IsArmed s r) h
