-- ===== src/EventInputQueue/BlockUntilKeyUp/UpEvent.antt =====
-- Where the up event of a target key goes in `BlockUntilKeyUpHandler`
-- (core/kext/Classes/EventInputQueue.cpp), and that nothing else changes its place.
use karabiner_cn.Base.{
  ℕ, ◌≡◌, refl, sym, ap, ◌∙◌, ◌⊎◌, inl, inr, Bool, true, false, not, ◌&&◌, List, [], ◌∷◌, ◌++◌,
  Option, none, some, arith, if◌then◌else◌, Bool-cases, any_of,
}
use karabiner_cn.EventInputQueue.{Item, EnqueuedFrom, from_hardware, from_blockedqueue}
use karabiner_cn.FromEvent.{of_params, is_target_down_event}
use karabiner_cn.Params.{ParamsBase, iskeydown}
use karabiner_cn.EventInputQueue.BlockUntilKeyUp.{
  State, insert_after_down, move_up_event, do_block_item, do_block_queue, do_block_until_key_up,
}
use karabiner_cn.EventInputQueue.BlockUntilKeyUp.Order.{events, waiting, waiting-do_block_key}

-- The item is a down event of the key of the front item.
abbrev pub is_down_of : Item → Item → Bool
is_down_of front x = is_target_down_event (of_params front.params) x.params

-- The last down event of the key, with the items around it.
pub record LastDown (front : Item) (xs : List Item) : Type 0 where
  pub before : List Item
  pub down : Item
  pub after : List Item
  pub split : xs ≡ before ++ (down ∷ after)
  pub is_its_down : is_down_of front down ≡ true
  pub none_after : any_of (is_down_of front) after ≡ false

abbrev Result : Item → List Item → Option (List Item) → Type 0
Result front xs none = any_of (is_down_of front) xs ≡ false
Result front xs (some ys) = (l : LastDown front xs) × (ys ≡ l.before ++ (l.down ∷ front ∷ l.after))

later :
    (front x : Item) (xs ys : List Item)
    → Result front xs (some ys)
    → Result front (x ∷ xs) (some (x ∷ ys))
later front x xs ys (l, e) = (
  record {
    before = x ∷ l.before;
    down = l.down;
    after = l.after;
    split = ap (◌∷◌ x) l.split;
    is_its_down = l.is_its_down;
    none_after = l.none_after;
  },
  ap (◌∷◌ x) e,
)

insert_step :
    (front x : Item) (xs : List Item) (o : Option (List Item))
    → Result front xs o
    → Result front (x ∷ xs) (elim o [
      | some ys ↦ some (x ∷ ys)
      | none ↦ if is_down_of front x then some (x ∷ front ∷ xs) else none
    ])
insert_step front x xs (some ys) h = later front x xs ys h
insert_step front x xs none h = elim (Bool-cases (is_down_of front x)) [
  | inl d ↦ rw d (
    record { before = []; down = x; after = xs; split = refl; is_its_down = d; none_after = h },
    refl,
  )
  | inr d ↦ let g : any_of (is_down_of front) (x ∷ xs) ≡ false = ground (arith, d, h) in rw d g
]

insert_lem : (front : Item) (xs : List Item) → Result front xs (insert_after_down front xs)
unfolding insert_after_down
insert_lem front [] = refl
insert_lem front (x ∷ xs) =
    insert_step front x xs (insert_after_down front xs) (insert_lem front xs)

move_by-Result :
    (front : Item) (xs : List Item) (o : Option (List Item))
    → Result front xs o
    → let result : List Item = elim o [ some ys ↦ ys | none ↦ front ∷ xs ] in
      ((any_of (is_down_of front) xs ≡ false) × (result ≡ front ∷ xs))
      ⊎ ((l : LastDown front xs) × (result ≡ l.before ++ (l.down ∷ front ∷ l.after)))
move_by-Result front xs none h = inl (h, refl)
move_by-Result front xs (some ys) h = inr h

-- The up event goes right behind the last down event of its key that is held back, with all other
-- items in their order, or to the front if no down event of its key is held back.
pub move_up_event_lem :
    (front : Item) (xs : List Item)
    → ((any_of (is_down_of front) xs ≡ false) × (move_up_event front xs ≡ front ∷ xs))
      ⊎ ((l : LastDown front xs) × (move_up_event front xs
            ≡ l.before ++ (l.down ∷ front ∷ l.after)))
unfolding move_up_event
move_up_event_lem front xs =
    move_by-Result front xs (insert_after_down front xs) (insert_lem front xs)

-- The front item comes from the hardware and is the up event of a target key.
abbrev pub moves_up : (ParamsBase → Bool) → EnqueuedFrom → Option Bool → Item → Bool
moves_up is_target from_hardware (some false) front = is_target front.params
moves_up is_target o k front = false

abbrev pub front_moves_up : (ParamsBase → Bool) → List Item → Bool
front_moves_up is_target [] = false
front_moves_up is_target (x ∷ xs) = moves_up is_target x.enqueued_from (iskeydown x.params) x

item-order :
    (is_target : ParamsBase → Bool) (ms : ℕ) (o : EnqueuedFrom) (k : Option Bool) (front : Item)
    (rest : List Item) (s : State)
    → s.queue ≡ front ∷ rest
    → moves_up is_target o k front ≡ false
    → waiting (do_block_item is_target ms o k front rest s).1 ≡ waiting s
unfolding do_block_item
item-order is_target ms from_blockedqueue k front rest s e h = refl
item-order is_target ms from_hardware none front rest s e h = refl
item-order is_target ms from_hardware (some is_down) front rest s e h =
    waiting-do_block_key is_target ms front rest is_down s e
    ∙ rw kept (ap (λ q. events (s.blocked_queue ++ q)) (sym e))
  where
    kept : (not is_down && is_target front.params) ≡ false
    kept = elim (Bool-cases is_down) [ inl d ↦ rw d refl | inr d ↦ rw d (rw d at h) ]

queue-order :
    (is_target : ParamsBase → Bool) (ms : ℕ) (q : List Item) (s : State)
    → s.queue ≡ q
    → front_moves_up is_target q ≡ false
    → waiting (do_block_queue is_target ms q s).1 ≡ waiting s
unfolding do_block_queue
queue-order is_target ms [] s e h = refl
queue-order is_target ms (x ∷ xs) s e h =
    item-order is_target ms x.enqueued_from (iskeydown x.params) x xs s e h

-- Unless the front item is the up event of a target key and comes from the hardware, a call of
-- `doBlockUntilKeyUp` leaves the held back and the queued items in their order, whether it holds
-- the item back, lets the held back items go, or does nothing.
pub do_block-order :
    (is_target : ParamsBase → Bool) (ms : ℕ) (s : State)
    → front_moves_up is_target s.queue ≡ false
    → waiting (do_block_until_key_up is_target ms s).1 ≡ waiting s
unfolding do_block_until_key_up
do_block-order is_target ms s h = queue-order is_target ms s.queue s refl h
