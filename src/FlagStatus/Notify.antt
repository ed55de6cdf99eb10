-- ===== src/FlagStatus/Notify.antt =====
-- The buffers and the notifications of `FlagStatus::updateStatusMessage`
-- (core/kext/Classes/FlagStatus.cpp).
use karabiner_cn.Base.{
  ℕ, zero, suc, ◌+◌, ◌-◌, ◌≤◌, ◌<◌, ◌≡◌, refl, ap, ◌∙◌, ◌≢◌, Bool, true, false, List, [], ◌∷◌, ◌++◌,
  arith, if◌then◌else◌, length, length-append, take, ◌==◌, Bool-cases, inl, inr, Option-cases, ◌&&◌,
  ◌||◌, map, is_include,
}
use karabiner_cn.Base.Int.{is_pos, eqb_ℤ, pos}
use karabiner_cn.FlagStatus
use karabiner_cn.FlagStatus.Counter
use karabiner_cn.FlagStatus.Counter.{Item, Method, call, sum}
use karabiner_cn.FlagStatus.Invariant.{
  Call, step, one, one_and_vector, vector, enables_lazy, disables_lazy, sets, resets, sets_key,
  sticky_active, clears_sticky, clears_lock, clears_negative_lock,
}
use karabiner_cn.KeyCodeModifierFlagPairs.{Pair}
use karabiner_cn.ModifierFlag
use karabiner_cn.FlagStatus.Loop.{for_items, visit}
use karabiner_cn.FlagStatus.Message.{
  append_item, append_items, update_message, update_round, update_status_message,
}
use karabiner_cn.StatusMessage.{
  Board, strlcat, same_string, maxlen, in_range, clear_statusmessage, append_statusmessage,
  send_notification_statusmessage, get_name, set_message, index_modifier_lock,
  index_modifier_caps_lock, index_modifier_sticky,
}

length-take-le {ℓ} : {A : Type ℓ} (n : ℕ) (xs : List A) → length (take n xs) ≤ n
length-take-le zero xs = omega arith
length-take-le (suc n) [] = omega arith
length-take-le (suc n) (x ∷ xs) = omega (arith, length-take-le n xs)

take_all {ℓ} : {A : Type ℓ} (n : ℕ) (xs : List A) → length xs ≤ n → take n xs ≡ xs
take_all zero [] h = refl
take_all zero (x ∷ xs) h = absurd (omega arith)
take_all (suc n) [] h = refl
take_all (suc n) (x ∷ xs) h = ap (◌∷◌ x) (take_all n xs (omega arith))

length-strlcat :
    (size : ℕ) (dst src : List ℕ) → length dst < size → length (strlcat size dst src) < size
length-strlcat size dst src h = omega (
  arith,
  length-append dst (take (size - 1 - length dst) src),
  length-take-le (size - 1 - length dst) src,
)

-- Every message, and the buffer of the previous message, leave room for the terminator.
pub record Fits (b : Board) : Type 0 where
  pub messages_fit : (i : ℕ) → length (b.messages i) < maxlen
  pub previous_fits : length b.previous_message < maxlen

set_message-Fits :
    (b : Board) (index : ℕ) (s : List ℕ) → Fits b → length s < maxlen → Fits (set_message b index s)
set_message-Fits b index s f h = record {
  messages_fit = λ i. ground (arith, f.messages_fit i);
  previous_fits = f.previous_fits;
}

clear-Fits : (index : ℕ) (b : Board) → Fits b → Fits (clear_statusmessage index b)
unfolding clear_statusmessage
clear-Fits index b f = elim (Bool-cases (in_range index)) [
  | inl e ↦ rw e (set_message-Fits b index [] f (omega arith))
  | inr e ↦ rw e f
]

append-Fits : (index : ℕ) (s : List ℕ) (b : Board) → Fits b → Fits (append_statusmessage index s b)
unfolding append_statusmessage
append-Fits index s b f = elim (Bool-cases (in_range index)) [
  | inl e ↦ rw e (
      set_message-Fits b index _ f
        (length-strlcat maxlen (b.messages index) s (f.messages_fit index)))
  | inr e ↦ rw e f
]

-- A statement that every append to the message keeps is kept by the whole `switch`.
module _ {ℓ} (P : Board → Type ℓ) (index : ℕ)
    (keep : (s : List ℕ) (b : Board) → P b → P (append_statusmessage index s b)) where
  if_both : (test : Bool) (a b : Board) → P a → P b → P (if test then a else b)
  if_both true a b pa pb = pa
  if_both false a b pa pb = pb

  append_item_keeps : (x : Item) (name : List ℕ) (b : Board) → P b → P (append_item index x name b)
  unfolding append_item
  append_item_keeps x name b p =
      let word = append_statusmessage index (b' ' ∷ []) (append_statusmessage index name b) in
      let word_p = keep (b' ' ∷ []) (append_statusmessage index name b) (keep name b p) in
      let minus = append_statusmessage index (b'-' ∷ []) b in
      let negative =
        append_statusmessage index (b' ' ∷ []) (append_statusmessage index name minus) in
      let negative_p = keep (b' ' ∷ []) _ (keep name minus (keep (b'-' ∷ []) b p)) in
      let lock = if is_pos x.lock_count then word else b in
      let lock_p = if_both (is_pos x.lock_count) word b word_p p in
      let caps = x.flag == ModifierFlag.capslock in
      let either = if is_pos x.negative_lock_count then negative else lock in
      let sticky = if is_pos x.sticky_count then word else b in
      if_both (index == index_modifier_lock) (if caps then b else either) _
        (if_both caps b either p
          (if_both (is_pos x.negative_lock_count) negative lock negative_p lock_p))
        (if_both (index == index_modifier_caps_lock) (if caps then lock else b) _
          (if_both caps lock b lock_p p)
          (if_both (index == index_modifier_sticky) sticky b
            (if_both (is_pos x.sticky_count) word b word_p p) p))

  append_items_keeps : (xs : List Item) (b : Board) → P b → P (append_items index xs b)
  unfolding append_items
  append_items_keeps [] b p = p
  append_items_keeps (x ∷ xs) b p = elim (Option-cases (get_name b.names x.flag)) [
    | inl e ↦ rw e (append_items_keeps xs b p)
    | inr (name, e) ↦ rw e (append_items_keeps xs _ (append_item_keeps x name b p))
  ]

update_message-Fits :
    (index : ℕ) (items : List Item) (b : Board) → Fits b → Fits (update_message index items b)
unfolding update_message
update_message-Fits index items b f =
    append_items_keeps Fits index (append-Fits index) items _ (clear-Fits index b f)

send-Fits : (index : ℕ) (b : Board) → Fits b → Fits (send_notification_statusmessage index b)
unfolding send_notification_statusmessage
send-Fits index b f = elim (Bool-cases (in_range index)) [
  | inl e ↦ rw e (record { messages_fit = f.messages_fit; previous_fits = f.previous_fits })
  | inr e ↦ rw e f
]

update_round-Fits :
    (index : ℕ) (items : List Item) (b : Board) → Fits b → Fits (update_round index items b)
unfolding update_round
update_round-Fits index items b f =
    let previous = strlcat maxlen b.previous_message (b.messages index) in
    let start : Fits (record b { previous_message = previous }) = record {
      messages_fit = f.messages_fit;
      previous_fits = length-strlcat maxlen b.previous_message (b.messages index) f.previous_fits;
    } in
    let after = update_message index items (record b { previous_message = previous }) in
    let after_fits = update_message-Fits index items _ start in
    if_both Fits index (append-Fits index) (same_string (after.messages index) previous) after
      (send_notification_statusmessage index after) after_fits (send-Fits index after after_fits)

pub update_status_message-Fits :
    (items : List Item) (b : Board) → Fits b → Fits (update_status_message items b)
unfolding update_status_message
update_status_message-Fits items b f = update_round-Fits index_modifier_sticky items _ (
    update_round-Fits index_modifier_caps_lock items _
      (update_round-Fits index_modifier_lock items b f))

for_items-Fits :
    (select : Item → Bool) (change : Item → Item) (notify : Item → Bool) (xs visited : List Item)
    (b : Board)
    → Fits b
    → Fits (for_items select change notify visited xs b).1
unfolding for_items
for_items-Fits select change notify [] visited b f = f
for_items-Fits select change notify (x ∷ xs) visited b f =
    for_items-Fits select change notify xs _ _ (
      if_both Fits 0 (append-Fits 0) (select x && notify (if select x then change x else x)) _ b
        (update_status_message-Fits (visited ++ ((if select x then change x else x) ∷ xs)) b f) f)

-- No method ever writes past the 128 bytes of a status message or of the buffer in which the
-- previous message is kept.
pub step-Fits :
    (pairs : List Pair) (c : Call) (items : List Item) (b : Board)
    → Fits b
    → Fits (step pairs c (items, b)).1
unfolding step FlagStatus.set FlagStatus.reset FlagStatus.set_key FlagStatus.method_flag
    FlagStatus.method_flag_vector FlagStatus.method_vector FlagStatus.sticky_active_modifiers
    FlagStatus.sticky_clear FlagStatus.lock_clear FlagStatus.negative_lock_clear visit
step-Fits pairs (one method m) items b f =
    for_items-Fits (λ x. m == x.flag) (call method) (FlagStatus.notifies method) items [] b f
step-Fits pairs (one_and_vector method m ms) items b f =
    for_items-Fits (λ x. m == x.flag || is_include ms x.flag) (call method)
      (FlagStatus.notifies method) items [] b f
step-Fits pairs (vector method ms) items b f =
    for_items-Fits (λ x. is_include ms x.flag) (call method) (FlagStatus.notifies method) items [] b
      f
step-Fits pairs enables_lazy items b f = f
step-Fits pairs disables_lazy items b f = f
step-Fits pairs sets items b f = update_status_message-Fits (map Counter.set items) b f
step-Fits pairs resets items b f = update_status_message-Fits (map Counter.reset items) b f
step-Fits pairs (sets_key key flags) items b f =
    update_status_message-Fits (map (Counter.set_key pairs key flags) items) b f
step-Fits pairs (sticky_active method) items b f =
    update_status_message-Fits (map (λ x. if is_pos (sum x true) then call method x else x) items) b
      f
step-Fits pairs clears_sticky items b f =
    update_status_message-Fits (map (call Method.sticky_decrease) items) b f
step-Fits pairs clears_lock items b f =
    update_status_message-Fits
      (map (λ x. if eqb_ℤ x.lock_count (pos 0) then x else call Method.lock_decrease x) items) b f
step-Fits pairs clears_negative_lock items b f =
    update_status_message-Fits
      (map
        (λ x.
          if eqb_ℤ x.negative_lock_count (pos 0) then x else call Method.negative_lock_decrease x)
        items)
      b f

same_string-length : (xs ys : List ℕ) → same_string xs ys ≡ true → length xs ≡ length ys
unfolding same_string
same_string-length [] [] h = refl
same_string-length [] (y ∷ ys) h = cc
same_string-length (x ∷ xs) [] h = cc
same_string-length (x ∷ xs) (y ∷ ys) h = ap suc (same_string-length xs ys (ground arith))

append-notifications :
    (index : ℕ) (s : List ℕ) (b : Board)
    → (append_statusmessage index s b).notifications ≡ b.notifications
unfolding append_statusmessage
append-notifications index s b = elim (Bool-cases (in_range index)) [ inl e ↦ rw e | inr e ↦ rw e ]

send-notifications :
    (index : ℕ) (b : Board)
    → in_range index ≡ true
    → (send_notification_statusmessage index b).notifications ≡ index ∷ b.notifications
unfolding send_notification_statusmessage
send-notifications index b r = rw r

update_message-notifications :
    (index : ℕ) (items : List Item) (b : Board)
    → (update_message index items b).notifications ≡ b.notifications
unfolding update_message clear_statusmessage
update_message-notifications index items b =
    append_items_keeps (λ c. c.notifications ≡ b.notifications) index
      (λ s c e. append-notifications index s c ∙ e) items _ cleared
  where
    cleared : (clear_statusmessage index b).notifications ≡ b.notifications
    cleared = elim (Bool-cases (in_range index)) [ inl e ↦ rw e | inr e ↦ rw e ]

positive_length : (xs : List ℕ) → xs ≢ [] → 0 < length xs
positive_length [] h = absurd (h refl)
positive_length (x ∷ xs) h = omega arith

-- A message differs from itself with some text in front of it.
same_string-append :
    (xs ys zs whole : List ℕ) → xs ≢ [] → zs ≡ ys → whole ≡ xs ++ ys → same_string zs whole ≡ false
same_string-append xs ys zs whole h e w = elim (Bool-cases (same_string zs whole)) [
  | inr differ ↦ differ
  | inl same ↦ absurd (
      omega (
        arith,
        same_string-length zs whole same,
        ap length w,
        length-append xs ys,
        ap length e,
        positive_length xs h,
      ))
]

-- While the buffer of the previous message holds anything and has room, a round that recomputes the
-- very message that is already shown sends a notification of it all the same.
pub update_round_repeats :
    (index : ℕ) (items : List Item) (b : Board)
    → in_range index ≡ true
    → b.previous_message ≢ []
    → length b.previous_message + length (b.messages index) < maxlen
    → (update_message index items (record b {
      previous_message = strlcat maxlen b.previous_message (b.messages index);
    })).messages
        index
      ≡ b.messages index
    → (update_round index items b).notifications ≡ index ∷ b.notifications
unfolding update_round
update_round_repeats index items b r some_text room same =
    let previous = b.previous_message in
    let text = b.messages index in
    let whole : strlcat maxlen previous text ≡ previous ++ text =
      ap (◌++◌ previous) (take_all (maxlen - 1 - length previous) text (omega arith)) in
    let start = record b { previous_message = strlcat maxlen previous text } in
    let differ : same_string ((update_message index items start).messages index)
          (strlcat maxlen previous text)
        ≡ false =
      same_string-append previous text _ _ some_text same whole in
    rw differ (
      send-notifications index (update_message index items start) r
      ∙ ap (◌∷◌ index) (update_message-notifications index items start))
