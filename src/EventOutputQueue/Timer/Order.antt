-- ===== src/EventOutputQueue/Timer/Order.antt =====
-- The timer of `EventOutputQueue` (core/kext/Classes/EventOutputQueue.cpp) keeps the order of the
-- queue.
use karabiner_cn.Base.{
  ℕ, ◌+◌, ◌≡◌, refl, ap, ap₂, subst, sym, ◌∙◌, Bool, true, false, not, ◌&&◌, ◌||◌, if◌then◌else◌,
  List, [], ◌∷◌, ◌++◌, map, Option, none, some, arith,
}
use karabiner_cn.Params.{ParamsBase}
use karabiner_cn.EventOutputQueue.{State, World, Item}
use karabiner_cn.EventOutputQueue.Timer.{
  Outside, Sent, cancel_from, delete_canceled, fire_front, fire_timer_callback, fire_if_active,
  tick, run, add_sent,
}

-- No item is canceled.
abbrev pub is_live : List Item → Bool
is_live [] = true
is_live (i ∷ is) = let rest = is_live is in not i.canceled && rest

-- A run of the timer in which the rules cancel nothing.
abbrev pub quiet : Outside → Outside
quiet o = record o { cancels = λ q n. false }

abbrev pub all_params : List Item → List ParamsBase
all_params = map (λ i. i.params)

abbrev pub sent_params : List Sent → List ParamsBase
sent_params = map (λ x. x.0)

delete_canceled-live :
    (n : ℕ) (q : List Item) → is_live q ≡ true → delete_canceled (cancel_from (λ n. false) n q) ≡ q
unfolding delete_canceled cancel_from
delete_canceled-live n [] h = refl
delete_canceled-live n (i ∷ is) h =
    let rest = delete_canceled (cancel_from (λ n. false) (n + 1) is) in
    let live : i.canceled ≡ false = ground (arith, h) in
    subst (λ b. (if b || false then rest else record i { canceled = b || false } ∷ rest) ≡ i ∷ is)
      (sym live)
      (ap₂ (λ b l. record i { canceled = b } ∷ l) (sym live)
        (delete_canceled-live (n + 1) is (ground (arith, h))))

-- What a tick takes off the queue is what it sends.
record Takes (q : List Item) (r : State × Option Sent) : Type 0 where
  order : all_params q ≡ sent_params (add_sent r.1 []) ++ all_params r.0.queue
  live : is_live r.0.queue ≡ true

fire_front-Takes :
    (w : World) (o : Outside) (q : List Item) (s : State)
    → is_live q ≡ true
    → Takes q (fire_front w o q s)
unfolding fire_front
fire_front-Takes w o [] s h = record { order = refl; live = refl }
fire_front-Takes w o (i ∷ []) s h = record { order = refl; live = refl }
fire_front-Takes w o (i ∷ j ∷ rest) s h = record { order = refl; live = ground (arith, h) }

tick-Takes :
    (w : World) (o : Outside) (s : State)
    → is_live s.queue ≡ true
    → Takes s.queue (tick w (quiet o) s)
unfolding tick fire_if_active fire_timer_callback
tick-Takes w o s h = elim s.fire_timer as (λ t. Takes s.queue (fire_if_active w (quiet o) s t)) [
  | none ↦ record { order = refl; live = h }
  | some t ↦
      subst (λ q. Takes s.queue (fire_front w (quiet o) q (record s { fire_timer = none })))
        (sym (delete_canceled-live 0 s.queue h))
        (fire_front-Takes w (quiet o) s.queue (record s { fire_timer = none }) h)
]

-- If no item is canceled, neither when the timer starts nor by the rules, then what has been sent
-- after any number of runs of the timer, followed by what is in the queue, is the queue at the start.
pub queue_order-run :
    (w : World) (os : List Outside) (s : State)
    → is_live s.queue ≡ true
    → sent_params (run w (map quiet os) s).1 ++ all_params (run w (map quiet os) s).0.queue
      ≡ all_params s.queue
unfolding run
queue_order-run w [] s h = refl
queue_order-run w (o ∷ os) s h =
    let r = tick w (quiet o) s in
    let t = tick-Takes w o s h in
    let rest = run w (map quiet os) r.0 in
    sent_params-add_sent r.1 rest.1 (all_params rest.0.queue)
    ∙ ap (λ l. sent_params (add_sent r.1 []) ++ l) (queue_order-run w os r.0 t.live)
    ∙ sym t.order
  where
    sent_params-add_sent :
        (x : Option Sent) (l : List Sent) (end : List ParamsBase)
        → sent_params (add_sent x l) ++ end ≡ sent_params (add_sent x []) ++ (sent_params l ++ end)
    sent_params-add_sent none l end = refl
    sent_params-add_sent (some x) l end = refl
