-- ===== src/ButtonStatus/Laws.antt =====
-- What `ButtonStatus` (core/kext/Classes/ButtonStatus.cpp) reports, and what locking does.
use karabiner_cn.Base.{
  ℕ, ◌≡◌, refl, ap, ap₂, ◌∙◌, ◌⊎◌, inl, inr, Bool, true, ◌&&◌, ◌||◌, List, [], ◌∷◌, map, ==_iff,
  arith, if◌then◌else◌, any_of, All, Bool-cases,
}
use karabiner_cn.Base.Bits.{testbit, testbit-zero, testbit-bit_or}
use karabiner_cn.Base.Int.{pos, is_pos, ◌+ℤ◌, eqb_ℤ, eq_of_parts}
use karabiner_cn.Flags.Laws.{Covers, Covers-bit_or_left, Covers-bit_or_right}
use karabiner_cn.Buttons
use karabiner_cn.Buttons.Laws.{is_on-Covers}
use karabiner_cn.ButtonStatus
use karabiner_cn.ButtonStatus.{
  State, make_buttons, make_buttons_from, get_locked_buttons, get_locked_buttons_from, lock_clear,
  for_buttons, lock_method, append_names, shown_buttons,
}
use karabiner_cn.ButtonStatus.Item
use karabiner_cn.ButtonStatus.Item.{Button}

abbrev pub pressed : ℕ → Button → Bool
pressed k x = testbit k x.button && is_pos (x.count +ℤ x.lock_count)

make_buttons_from_lem :
    (k flags : ℕ) (xs : List Button)
    → testbit k (make_buttons_from flags xs) ≡ (testbit k flags || any_of (pressed k) xs)
unfolding make_buttons_from Buttons.add Item.make_buttons
make_buttons_from_lem k flags [] = ground arith
make_buttons_from_lem k flags (x ∷ xs) = ground (
  arith,
  make_buttons_from_lem k (Buttons.add flags (Item.make_buttons x)) xs,
  testbit-bit_or k flags x.button,
  testbit-bit_or k flags 0,
  testbit-zero k,
)

-- A bit is set in `makeButtons` exactly when some item of a button with this bit has a positive sum
-- of its counters.
pub testbit-make_buttons :
    (k : ℕ) (items : List Button) → testbit k (make_buttons items) ≡ any_of (pressed k) items
testbit-make_buttons k items = ground (arith, make_buttons_from_lem k 0 items, testbit-zero k)

-- The locked buttons contain the button of each locked item.
Covers-get_locked_from :
    (xs : List Button) (buttons c : ℕ)
    → Covers buttons c
    → Covers (get_locked_buttons_from buttons xs) c
unfolding get_locked_buttons_from Buttons.add
Covers-get_locked_from [] buttons c h = h
Covers-get_locked_from (x ∷ xs) buttons c h = elim (Bool-cases (eqb_ℤ x.lock_count (pos 0))) [
  | inl e ↦ rw e (Covers-get_locked_from xs buttons c h)
  | inr e ↦ rw e (Covers-get_locked_from xs _ c (Covers-bit_or_left buttons x.button c h))
]

abbrev IsCovered : ℕ → Button → Type 0
IsCovered whole x = (eqb_ℤ x.lock_count (pos 0) ≡ true) ⊎ Covers whole x.button

head_IsCovered :
    (x : Button) (xs : List Button) (buttons : ℕ)
    → IsCovered (get_locked_buttons_from buttons (x ∷ xs)) x
unfolding get_locked_buttons_from Buttons.add
head_IsCovered x xs buttons = elim (Bool-cases (eqb_ℤ x.lock_count (pos 0))) [
  | inl e ↦ inl e
  | inr e ↦ inr (rw e (Covers-get_locked_from xs _ x.button (Covers-bit_or_right buttons x.button)))
]

locked_IsCovered :
    (xs : List Button) (buttons : ℕ) → All (IsCovered (get_locked_buttons_from buttons xs)) xs
unfolding get_locked_buttons_from
locked_IsCovered [] buttons = tt
locked_IsCovered (x ∷ xs) buttons = (head_IsCovered x xs buttons, locked_IsCovered xs _)

abbrev pub unlocked : Button → Button
unlocked x = record x { lock_count = pos 0 }

clear_item :
    (whole : ℕ) (x : Button)
    → IsCovered whole x
    → (if Buttons.is_on whole x.button then Item.lock_decrease x else x) ≡ unlocked x
unfolding Item.lock_decrease
clear_item whole x (inr c) = rw ((is_on-Covers whole x.button).1 c)
clear_item whole x (inl z) =
    let e : x.lock_count ≡ pos 0 = eq_of_parts _ _ ((==_iff _ _).0 z) in
    elim (Bool-cases (Buttons.is_on whole x.button)) [
      | inl on ↦ rw on
      | inr off ↦ rw off (ap (λ n. record x { lock_count = n }) e)
    ]

clear_items :
    (whole : ℕ) (xs : List Button)
    → All (IsCovered whole) xs
    → for_buttons whole Item.lock_decrease xs ≡ map unlocked xs
unfolding for_buttons
clear_items whole [] h = refl
clear_items whole (x ∷ xs) h = ap₂ ◌∷◌ (clear_item whole x h.0) (clear_items whole xs h.1)

get_locked-unlocked :
    (xs : List Button) (buttons : ℕ) → get_locked_buttons_from buttons (map unlocked xs) ≡ buttons
unfolding get_locked_buttons_from
get_locked-unlocked [] buttons = refl
get_locked-unlocked (x ∷ xs) buttons = get_locked-unlocked xs buttons

-- `lock_clear` sets the lock counter of every item to 0 and changes nothing else in the items, and
-- no button is locked behind it, neither by the items nor by the record of what was last shown.
pub lock_clear_lem :
    (s : State)
    → ((lock_clear s).items ≡ map unlocked s.items)
      × (get_locked_buttons (lock_clear s).items ≡ 0)
      × ((lock_clear s).status_message_buttons ≡ 0)
unfolding lock_clear lock_method ButtonStatus.update_status_message
lock_clear_lem s =
    let e = clear_items (get_locked_buttons s.items) s.items (locked_IsCovered s.items 0) in
    let none_locked = ap get_locked_buttons e ∙ get_locked-unlocked s.items 0 in
    (e, none_locked, none_locked)
