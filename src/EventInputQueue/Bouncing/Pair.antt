-- ===== src/EventInputQueue/Bouncing/Pair.antt =====
-- Bouncing pairs described apart from the loop that removes them
-- (core/kext/Classes/EventInputQueue.cpp).
use karabiner_cn.Base.{
  ℕ, ◌+◌, ◌^◌, ◌%◌, ◌≢◌, ◌++◌, All, Bool, not, lt→ltb, sym, ◌∙◌, ◌<◌, ◌≡◌, refl, ap, inl, inr, true,
  false, ◌&&◌, List, [], ◌∷◌, Option, none, some, arith, ltb, Bool-cases,
}
use karabiner_cn.EventInputQueue.{Item}
use karabiner_cn.FromEvent.{
  FromEvent, of_params, is_target_down_event, is_target_up_event, target_event,
}
use karabiner_cn.Params.{ParamsBase, iskeydown, keyboard, keyboard_special, relative_pointer}
use karabiner_cn.EventInputQueue.Bouncing.{
  Settings, threshold, interval, scan, remove_pair, push, or_else,
}

-- The threshold of the configuration for the device that sends such events.
abbrev pub limit : Settings → ParamsBase → ℕ
limit c (keyboard p) = c.threshold_for_keyboard
limit c (keyboard_special p) = c.threshold_for_keyboard
limit c (relative_pointer p) = c.threshold_for_mice
limit c p = 0

-- A key up and a key down of the same key behind it, with no key up of that key between them. The
-- numbers of milliseconds since they came differ by less than the threshold, on 32 bits.
pub record BouncingPair (c : Settings) (xs : List Item) : Type 0 where
  pub before : List Item
  pub key_up_event : Item
  pub between : List Item
  pub key_down_event : Item
  pub after : List Item
  pub split : xs ≡ before ++ (key_up_event ∷ between ++ (key_down_event ∷ after))
  pub is_key_up : iskeydown key_up_event.params ≡ some false
  pub is_key_down : target_event (of_params key_up_event.params) key_down_event.params ≡ some true
  pub no_key_up :
      All (λ x. target_event (of_params key_up_event.params) x.params ≢ some false) between
  pub apart : ℕ
  pub apart-lt : apart < 2 ^ 32
  pub apart_eq :
      (c.getmillisec key_down_event.ic + apart) % 2 ^ 32 ≡ c.getmillisec key_up_event.ic % 2 ^ 32
  pub is_short : apart < limit c key_up_event.params

pub threshold-limit :
    (c : Settings) (p : ParamsBase)
    → iskeydown p ≡ some false
    → threshold c (of_params p) ≡ limit c p
unfolding threshold of_params iskeydown
threshold-limit c (keyboard p) h = refl
threshold-limit c (keyboard_special p) h = refl
threshold-limit c (relative_pointer p) h = refl
threshold-limit c _ h = refl

interval_eq :
    (c : Settings) (p q : Item) (d : ℕ)
    → d < 2 ^ 32
    → (c.getmillisec q.ic + d) % 2 ^ 32 ≡ c.getmillisec p.ic % 2 ^ 32
    → interval c p q ≡ d
interval_eq c p q d lt e = omega arith

push-none : (x : Item) (o : Option (List Item)) → push x o ≡ none → o ≡ none
push-none x none e = refl
push-none x (some ys) e = cc

-- What the inner loop does with an item that is no key up.
scan_stop :
    (c : Settings) (p q : Item) (qs : List Item)
    → is_target_up_event (of_params p.params) q.params ≡ false
    → (is_target_down_event (of_params p.params) q.params
        && ltb (interval c p q) (threshold c (of_params p.params)))
      ≡ true
    → scan c p (q ∷ qs) ≡ some qs
unfolding scan
scan_stop c p q qs u d = rw (u, d) refl

scan_on :
    (c : Settings) (p q : Item) (qs : List Item)
    → is_target_up_event (of_params p.params) q.params ≡ false
    → (is_target_down_event (of_params p.params) q.params
        && ltb (interval c p q) (threshold c (of_params p.params)))
      ≡ false
    → scan c p (q ∷ qs) ≡ push q (scan c p qs)
unfolding scan
scan_on c p q qs u d = rw (u, d) refl

down_target :
    (e : FromEvent) (r : ParamsBase)
    → target_event e r ≡ some true
    → (is_target_down_event e r ≡ true) × (is_target_up_event e r ≡ false)
unfolding is_target_down_event is_target_up_event
down_target e r h = rw (is_target_down_event, is_target_up_event, h) (refl, refl)

up_target :
    (e : FromEvent) (r : ParamsBase) → is_target_up_event e r ≡ true → target_event e r ≡ some false
unfolding is_target_up_event
up_target e r u = from_up (target_event e r) u
  where
    from_up :
        (o : Option Bool)
        → (elim o [ none ↦ false | some is_down ↦ not is_down ]) ≡ true
        → o ≡ some false
    from_up none u = cc
    from_up (some true) u = cc
    from_up (some false) u = refl

-- The inner loop finds the key down event of a pair, or one before it.
scan_finds :
    (c : Settings) (p : Item) (between : List Item) (q : Item) (after : List Item)
    → target_event (of_params p.params) q.params ≡ some true
    → All (λ x. target_event (of_params p.params) x.params ≢ some false) between
    → ltb (interval c p q) (threshold c (of_params p.params)) ≡ true
    → scan c p (between ++ (q ∷ after)) ≢ none
scan_finds c p [] q after d quiet lt e =
    let (down, not_up) = down_target (of_params p.params) q.params d in
    let s = scan_stop c p q after not_up (ground arith) in cc
scan_finds c p (x ∷ xs) q after d quiet lt e =
    elim (Bool-cases (is_target_up_event (of_params p.params) x.params)) [
      | inl up ↦ quiet.0 (up_target (of_params p.params) x.params up)
      | inr not_up ↦
          elim (Bool-cases (
            is_target_down_event (of_params p.params) x.params
            && ltb (interval c p x) (threshold c (of_params p.params)))) [
              | inl here ↦ let s = scan_stop c p x (xs ++ (q ∷ after)) not_up here in cc
              | inr on ↦
                  scan_finds c p xs q after d quiet.1 lt
                    (push-none x _ (sym (scan_on c p x (xs ++ (q ∷ after)) not_up on) ∙ e))
            ]
    ]

-- Where the outer loop finds no pair, there is none.
remove_pair_finds :
    (c : Settings) (before : List Item) (p : Item) (rest : List Item)
    → iskeydown p.params ≡ some false
    → scan c p rest ≢ none
    → remove_pair c (before ++ (p ∷ rest)) ≢ none
unfolding remove_pair
remove_pair_finds c [] p rest up found e = found (or_else_left _ _ (rw up at e))
  where
    or_else_left : (a b : Option (List Item)) → or_else a b ≡ none → a ≡ none
    or_else_left none b e = refl
    or_else_left (some ys) b e = cc
remove_pair_finds c (x ∷ xs) p rest up found e =
    remove_pair_finds c xs p rest up found (push-none x _ (or_else_right _ _ e))
  where
    or_else_right : (a b : Option (List Item)) → or_else a b ≡ none → b ≡ none
    or_else_right none b e = e
    or_else_right (some ys) b e = cc

pub no_pair : (c : Settings) (xs : List Item) → remove_pair c xs ≡ none → ¬ BouncingPair c xs
no_pair c xs e b =
    remove_pair_finds c b.before b.key_up_event (b.between ++ (b.key_down_event ∷ b.after))
      b.is_key_up
      (scan_finds c b.key_up_event b.between b.key_down_event b.after b.is_key_down b.no_key_up (
        lt→ltb _ _ (
          omega (
            arith,
            interval_eq c b.key_up_event b.key_down_event b.apart b.apart-lt b.apart_eq,
            threshold-limit c b.key_up_event.params b.is_key_up,
            b.is_short,
          ))))
      (sym (ap (remove_pair c) b.split) ∙ e)
