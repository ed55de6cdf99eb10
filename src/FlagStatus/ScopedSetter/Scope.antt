-- ===== src/FlagStatus/ScopedSetter/Scope.antt =====
-- What is done inside the scope of a `ScopedSetter` (core/kext/Classes/FlagStatus.hpp): methods of
-- `FlagStatus` for vectors of modifiers, and `sticky_clear`, which the output queue calls for events
-- that are fired; and how these go with the methods of the constructor and the destructor.
use karabiner_cn.Base.{
  ℕ, zero, suc, ◌≡◌, refl, sym, ap, ◌∙◌, inl, inr, Bool, true, false, List, [], ◌∷◌, map, map-map,
  ◌==◌, if◌then◌else◌, is_include, All, Bool-cases,
}
use karabiner_cn.Base.Int.{inc, dec, inc-dec, dec-inc}
use karabiner_cn.ModifierFlag
use karabiner_cn.StatusMessage.{Board}
use karabiner_cn.FlagStatus.{method_vector, sticky_clear, notifies}
use karabiner_cn.FlagStatus.Counter.{Item, Method, call, lnot}
use karabiner_cn.FlagStatus.Loop.{for_items_lem, visit}
use karabiner_cn.FlagStatus.ScopedSetter.{times, flag-call}

pub data Step : Type 0 where
  clears : Step
  calls : Method → List ℕ → Step

-- The method leaves the lock count of caps lock to `increase`.
abbrev pub keeps_lock : Method → Bool
keeps_lock Method.lock_increase = false
keeps_lock Method.lock_decrease = false
keeps_lock Method.lock_toggle = false
keeps_lock method = true

abbrev pub IsAllowed : Step → Type 0
IsAllowed clears = Unit
IsAllowed (calls method ms) = keeps_lock method ≡ true

abbrev pub do_step : Step → List Item × Board → List Item × Board
do_step clears (items, b) = sticky_clear items b
do_step (calls method ms) (items, b) = method_vector method ms items b

unfoldable pub do_steps : List Step → List Item × Board → List Item × Board
do_steps [] s = s
do_steps (t ∷ ts) s = do_steps ts (do_step t s)

-- What a step, and what all steps do with an item.
unfoldable pub step_item : Step → Item → Item
unfolding call
step_item clears x = call Method.sticky_decrease x
step_item (calls method ms) x = if is_include ms x.flag then call method x else x

unfoldable pub steps_item : List Step → Item → Item
unfolding step_item
steps_item [] x = x
steps_item (t ∷ ts) x = steps_item ts (step_item t x)

do_step_lem : (t : Step) (s : List Item × Board) → (do_step t s).0 ≡ map (step_item t) s.0
unfolding sticky_clear method_vector step_item visit
do_step_lem clears (items, b) = refl
do_step_lem (calls method ms) (items, b) =
    for_items_lem (λ x. is_include ms x.flag) (call method) (notifies method) items [] b

pub do_steps_lem :
    (ts : List Step) (s : List Item × Board) → (do_steps ts s).0 ≡ map (steps_item ts) s.0
unfolding do_steps steps_item
do_steps_lem [] s = same s.0
  where
    same : (xs : List Item) → xs ≡ map (λ x. x) xs
    same [] = refl
    same (x ∷ xs) = ap (◌∷◌ x) (same xs)
do_steps_lem (t ∷ ts) s =
    do_steps_lem ts (do_step t s)
    ∙ ap (map (steps_item ts)) (do_step_lem t s)
    ∙ map-map (steps_item ts) (step_item t) s.0

flag-step : (t : Step) (x : Item) → (step_item t x).flag ≡ x.flag
unfolding step_item
flag-step clears x = flag-call Method.sticky_decrease x
flag-step (calls method ms) x = elim (Bool-cases (is_include ms x.flag)) [
  | inl e ↦ rw e (flag-call method x)
  | inr e ↦ rw e refl
]

pub flag-steps : (ts : List Step) (x : Item) → (steps_item ts x).flag ≡ x.flag
unfolding steps_item
flag-steps [] x = refl
flag-steps (t ∷ ts) x = flag-steps ts (step_item t x) ∙ flag-step t x

-- The methods of the constructor and the destructor.
pub data IsOwn : Method → Type 0 where
  own_increases : IsOwn Method.increases
  own_decreases : IsOwn Method.decreases

module _ (x : Item) (caps : (x.flag == ModifierFlag.capslock) ≡ true) where
  increases_caps : call Method.increases x ≡ record x { lock_count = lnot x.lock_count }
  unfolding call
  increases_caps = rw caps

  decreases_caps : call Method.decreases x ≡ x
  unfolding call
  decreases_caps = rw caps

module _ (x : Item) (ordinary : (x.flag == ModifierFlag.capslock) ≡ false) where
  increases_ordinary : call Method.increases x ≡ record x { count = inc x.count }
  unfolding call
  increases_ordinary = rw ordinary

  decreases_ordinary : call Method.decreases x ≡ record x { count = dec x.count }
  unfolding call
  decreases_ordinary = rw ordinary

increases-decreases :
    (x : Item)
    → call Method.increases (call Method.decreases x)
      ≡ call Method.decreases (call Method.increases x)
increases-decreases x = elim (Bool-cases (x.flag == ModifierFlag.capslock)) [
  | inl e ↦
      ap (call Method.increases) (decreases_caps x e)
      ∙ increases_caps x e
      ∙ sym (decreases_caps (record x { lock_count = lnot x.lock_count }) e)
      ∙ sym (ap (call Method.decreases) (increases_caps x e))
  | inr e ↦
      ap (call Method.increases) (decreases_ordinary x e)
      ∙ increases_ordinary (record x { count = dec x.count }) e
      ∙ ap (λ n. record x { count = n }) (inc-dec x.count ∙ sym (dec-inc x.count))
      ∙ sym (decreases_ordinary (record x { count = inc x.count }) e)
      ∙ sym (ap (call Method.decreases) (increases_ordinary x e))
]

call_increases :
    (method : Method) (x : Item)
    → keeps_lock method ≡ true
    → call Method.increases (call method x) ≡ call method (call Method.increases x)
unfolding call
call_increases Method.increases x h = refl
call_increases Method.decreases x h = increases-decreases x
call_increases Method.lock_increase x h = cc
call_increases Method.lock_decrease x h = cc
call_increases Method.lock_toggle x h = cc
call_increases _ x h = elim (Bool-cases (x.flag == ModifierFlag.capslock)) [
  | inl e ↦ rw e refl
  | inr e ↦ rw e refl
]

call_decreases :
    (method : Method) (x : Item)
    → keeps_lock method ≡ true
    → call Method.decreases (call method x) ≡ call method (call Method.decreases x)
unfolding call
call_decreases Method.decreases x h = refl
call_decreases Method.increases x h = sym (increases-decreases x)
call_decreases Method.lock_increase x h = cc
call_decreases Method.lock_decrease x h = cc
call_decreases Method.lock_toggle x h = cc
call_decreases _ x h = elim (Bool-cases (x.flag == ModifierFlag.capslock)) [
  | inl e ↦ rw e refl
  | inr e ↦ rw e refl
]

call_own :
    (own method : Method) (x : Item)
    → IsOwn own
    → keeps_lock method ≡ true
    → call own (call method x) ≡ call method (call own x)
call_own _ method x own_increases h = call_increases method x h
call_own _ method x own_decreases h = call_decreases method x h

call_step :
    (own : Method) (t : Step) (x : Item)
    → IsOwn own
    → IsAllowed t
    → call own (step_item t x) ≡ step_item t (call own x)
unfolding step_item
call_step own clears x o a = call_own own Method.sticky_decrease x o refl
call_step own (calls method ms) x o a = elim (Bool-cases (is_include ms x.flag)) [
  | inl e ↦ rw (flag-call own x, e) (call_own own method x o a)
  | inr e ↦ rw (flag-call own x, e) refl
]

call_steps :
    (own : Method) (ts : List Step) (x : Item)
    → IsOwn own
    → All IsAllowed ts
    → call own (steps_item ts x) ≡ steps_item ts (call own x)
unfolding steps_item
call_steps own [] x o a = refl
call_steps own (t ∷ ts) x o a =
    call_steps own ts (step_item t x) o a.1 ∙ ap (steps_item ts) (call_step own t x o a.0)

pub times_steps :
    (n : ℕ) (own : Method) (ts : List Step) (x : Item)
    → IsOwn own
    → All IsAllowed ts
    → times n own (steps_item ts x) ≡ steps_item ts (times n own x)
unfolding times
times_steps zero own ts x o a = refl
times_steps (suc n) own ts x o a =
    ap (times n own) (call_steps own ts x o a) ∙ times_steps n own ts (call own x) o a
