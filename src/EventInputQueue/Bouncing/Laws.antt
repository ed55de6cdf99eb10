-- ===== src/EventInputQueue/Bouncing/Laws.antt =====
-- The loop on bouncing events (core/kext/Classes/EventInputQueue.cpp) as a whole: its end, its result,
-- and the balance of the down and up events.
use karabiner_cn.Base.{
  ℕ, zero, suc, ◌+◌, ◌<◌, ◌≡◌, refl, ap, inl, inr, true, false, ◌&&◌, List, [], ◌∷◌, Option, none,
  some, arith, if◌then◌else◌, ltb, length, Bool-cases,
}
use karabiner_cn.EventInputQueue.{Item}
use karabiner_cn.FromEvent.{
  FromEvent, no_event, key, consumer_key, pointing_button, of_params, is_target_down_event,
  is_target_up_event, target_event,
}
use karabiner_cn.Params.{ParamsBase, iskeydown, keyboard, keyboard_special, relative_pointer}
use karabiner_cn.EventInputQueue.Bouncing.{
  Settings, threshold, interval, scan, is_up, remove_pair, remove_bouncing_fuel, remove_bouncing,
  push, or_else,
}
use karabiner_cn.EventInputQueue.Bouncing.Reduction.{Reduces, fuel-Reduces}
use karabiner_cn.EventInputQueue.Bouncing.Pair.{BouncingPair, no_pair}

-- An up event, and a down event of its key, are the two for the same objects.
same_key :
    (e : FromEvent) (p q : ParamsBase)
    → is_up (iskeydown p) ≡ true
    → is_target_down_event (of_params p) q ≡ true
    → (is_target_up_event e p ≡ is_target_down_event e q)
      × (is_target_down_event e p ≡ false)
      × (is_target_up_event e q ≡ false)
unfolding iskeydown of_params is_target_down_event is_target_up_event target_event
same_key no_event (keyboard p) (keyboard q) hp hq = ground arith
same_key (key k) (keyboard p) (keyboard q) hp hq = ground arith
same_key (consumer_key k) (keyboard p) (keyboard q) hp hq = ground arith
same_key (pointing_button k) (keyboard p) (keyboard q) hp hq = ground arith
same_key no_event (keyboard_special p) (keyboard_special q) hp hq = ground arith
same_key (key k) (keyboard_special p) (keyboard_special q) hp hq = ground arith
same_key (consumer_key k) (keyboard_special p) (keyboard_special q) hp hq = ground arith
same_key (pointing_button k) (keyboard_special p) (keyboard_special q) hp hq = ground arith
same_key no_event (relative_pointer p) (relative_pointer q) hp hq = ground arith
same_key (key k) (relative_pointer p) (relative_pointer q) hp hq = ground arith
same_key (consumer_key k) (relative_pointer p) (relative_pointer q) hp hq = ground arith
same_key (pointing_button k) (relative_pointer p) (relative_pointer q) hp hq = ground arith
same_key e _ _ hp hq = cc

-- How many items are down events, and how many are up events, of an object.
unfoldable pub downs : FromEvent → List Item → ℕ
downs e [] = 0
downs e (x ∷ xs) = if is_target_down_event e x.params then suc (downs e xs) else downs e xs

unfoldable pub ups : FromEvent → List Item → ℕ
ups e [] = 0
ups e (x ∷ xs) = if is_target_up_event e x.params then suc (ups e xs) else ups e xs

-- What the list has lost against the first one: nothing but a down event for each up event.
abbrev pub IsBalanced : List Item → List Item → Type 0
IsBalanced xs ys = (e : FromEvent) → downs e xs + ups e ys ≡ downs e ys + ups e xs

Scanned : Item → List Item → Option (List Item) → Type 0
Scanned p qs none = Unit
Scanned p qs (some ys) =
    (length qs ≡ suc (length ys))
    × ((e : FromEvent)
        → (downs e qs ≡ (if is_target_up_event e p.params then suc (downs e ys) else downs e ys))
          × (ups e qs ≡ ups e ys)
          × (is_target_down_event e p.params ≡ false))

Removed : List Item → Option (List Item) → Type 0
Removed xs none = Unit
Removed xs (some ys) = (length ys < length xs) × IsBalanced xs ys

scan_step :
    (p q : Item) (qs : List Item) (o : Option (List Item))
    → Scanned p qs o
    → Scanned p (q ∷ qs) (push q o)
unfolding Scanned downs ups
scan_step p q qs none s = tt
scan_step p q qs (some ys) s = (ap suc s.0, λ e. ground (arith, s.1 e))

scan_lem :
    (c : Settings) (p : Item) (qs : List Item)
    → is_up (iskeydown p.params) ≡ true
    → Scanned p qs (scan c p qs)
unfolding scan Scanned downs ups
scan_lem c p [] h = tt
scan_lem c p (q ∷ qs) h = elim (Bool-cases (is_target_up_event (of_params p.params) q.params)) [
  | inl u ↦ rw u tt
  | inr u ↦
      elim (Bool-cases (
        is_target_down_event (of_params p.params) q.params
        && ltb (interval c p q) (threshold c (of_params p.params)))) [
          | inl d ↦
              rw (u, d) (refl, λ e. ground (arith, same_key e p.params q.params h (ground arith)))
          | inr d ↦ rw (u, d) (scan_step p q qs (scan c p qs) (scan_lem c p qs h))
        ]
]

push-Removed :
    (p : Item) (ps : List Item) (o : Option (List Item))
    → Removed ps o
    → Removed (p ∷ ps) (push p o)
unfolding Removed downs ups
push-Removed p ps none r = tt
push-Removed p ps (some ys) r = (omega (arith, r.0), λ e. ground (arith, r.1 e))

-- An up event and the down event behind it leave the list together.
Scanned-Removed :
    (p : Item) (ps : List Item) (o : Option (List Item)) → Scanned p ps o → Removed (p ∷ ps) o
unfolding Scanned Removed downs ups
Scanned-Removed p ps none s = tt
Scanned-Removed p ps (some ys) s = (omega (arith, s.0), λ e. ground (arith, s.1 e))

or_else-Removed :
    (xs : List Item) (a b : Option (List Item))
    → Removed xs a
    → Removed xs b
    → Removed xs (or_else a b)
or_else-Removed xs none b r t = t
or_else-Removed xs (some ys) b r t = r

remove_pair-Removed : (c : Settings) (xs : List Item) → Removed xs (remove_pair c xs)
unfolding remove_pair Removed
remove_pair-Removed c [] = tt
remove_pair-Removed c (p ∷ ps) =
    or_else-Removed (p ∷ ps) _ (push p (remove_pair c ps)) first
      (push-Removed p ps (remove_pair c ps) (remove_pair-Removed c ps))
  where
    first : Removed (p ∷ ps) (if is_up (iskeydown p.params) then scan c p ps else none)
    first = elim (Bool-cases (is_up (iskeydown p.params))) [
      | inl u ↦ rw u (Scanned-Removed p ps (scan c p ps) (scan_lem c p ps u))
      | inr u ↦ rw u tt
    ]

Finished : Settings → List Item → Option (List Item) → Type 0
Finished c xs o = (ys : List Item) × (o ≡ some ys) × IsBalanced xs ys × (remove_pair c ys ≡ none)

retry :
    (c : Settings) (n : ℕ) (xs : List Item) (o : Option (List Item))
    → remove_pair c xs ≡ o
    → Removed xs o
    → length xs < suc n
    → ((ys : List Item) → length ys < n → Finished c ys (remove_bouncing_fuel c n ys))
    → Finished c xs (elim o [ none ↦ some xs | some ys ↦ remove_bouncing_fuel c n ys ])
unfolding Finished Removed
retry c n xs none e r h ih = (xs, refl, λ k. refl, e)
retry c n xs (some ys) e r h ih =
    let (zs, f, b, stop) = ih ys (omega (arith, r.0)) in
    (zs, f, λ k. omega (arith, b k, r.1 k), stop)

fuel_lem :
    (c : Settings) (n : ℕ) (xs : List Item)
    → length xs < n
    → Finished c xs (remove_bouncing_fuel c n xs)
unfolding remove_bouncing_fuel
fuel_lem c zero xs h = absurd (omega arith)
fuel_lem c (suc n) xs h =
    retry c n xs (remove_pair c xs) refl (remove_pair-Removed c xs) h (fuel_lem c n)

-- The removal of bouncing events ends. It takes out bouncing pairs, one after another, and leaves a
-- queue without one: a key up, and a key down of the same key behind it, without a key up of that key
-- between them, such that the times since the two came differ by less than the threshold for the kind
-- of the event. For every object the down events that it has taken out are as many as the up events.
pub remove_bouncing_lem :
    (c : Settings) (xs : List Item)
    → (ys : List Item) × (remove_bouncing c xs ≡ some ys)
      × Reduces c xs ys
      × (¬ BouncingPair c ys)
      × IsBalanced xs ys
unfolding Finished
remove_bouncing_lem c xs =
    let n = suc (length xs) in
    let (ys, e, b, stop) = fuel_lem c n xs (omega arith) in
    (ys, e, fuel-Reduces c n xs ys e, no_pair c ys stop, b)
