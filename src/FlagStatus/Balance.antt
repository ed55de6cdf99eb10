-- ===== src/FlagStatus/Balance.antt =====
-- A method and its opposite, called with the same modifiers, leave the items of a `FlagStatus`
-- (core/kext/Classes/FlagStatus.cpp) as they were.
use karabiner_cn.Base.{
  ℕ, ◌≡◌, refl, ap, ap₂, ◌∙◌, Bool, true, false, ◌||◌, List, [], ◌∷◌, map, ◌==◌, arith,
  if◌then◌else◌, is_include, map-map, Bool-cases, inl, inr,
}
use karabiner_cn.Base.Int.{inc-dec, dec-inc}
use karabiner_cn.ModifierFlag
use karabiner_cn.StatusMessage.{Board}
use karabiner_cn.FlagStatus.{notifies, method_flag, method_flag_vector, method_vector}
use karabiner_cn.FlagStatus.Counter.{Item, Method, call}
use karabiner_cn.FlagStatus.Loop.{for_items, for_items_lem}

-- The method that takes back what another one did.
abbrev pub opposite : Method → Method
opposite Method.increases = Method.decreases
opposite Method.decreases = Method.increases
opposite Method.temporary_increase = Method.temporary_decrease
opposite Method.temporary_decrease = Method.temporary_increase
opposite Method.lazy_increase = Method.lazy_decrease
opposite Method.lazy_decrease = Method.lazy_increase
opposite other = other

-- The methods that count by ones.
abbrev pub counts : Method → Bool
counts Method.increases = true
counts Method.decreases = true
counts Method.temporary_increase = true
counts Method.temporary_decrease = true
counts Method.lazy_increase = true
counts Method.lazy_decrease = true
counts other = false

call-opposite :
    (method : Method) (x : Item)
    → counts method ≡ true
    → (x.flag == ModifierFlag.capslock) ≡ false
    → call (opposite method) (call method x) ≡ x
unfolding call
call-opposite Method.increases x c n = ground (arith, dec-inc x.count)
call-opposite Method.decreases x c n = ground (arith, inc-dec x.count)
call-opposite Method.temporary_increase x c n = ground (arith, dec-inc x.temporary_count)
call-opposite Method.temporary_decrease x c n = ground (arith, inc-dec x.temporary_count)
call-opposite Method.lazy_increase x c n = ground (arith, dec-inc x.lazy_count)
call-opposite Method.lazy_decrease x c n = ground (arith, inc-dec x.lazy_count)
call-opposite _ x c n = cc

flag-call : (method : Method) (x : Item) → (call method x).flag ≡ x.flag
unfolding call
flag-call Method.increases x = ground arith
flag-call _ x = ground arith

module _ (by_flag : ℕ → Bool) (method : Method) where
  change : Method → Item → Item
  change other x = if by_flag x.flag then call other x else x

  change-opposite :
      (x : Item)
      → counts method ≡ true
      → by_flag ModifierFlag.capslock ≡ false
      → change (opposite method) (change method x) ≡ x
  unfolding change call
  change-opposite x c n = elim (Bool-cases (by_flag x.flag)) [
    | inr off ↦ rw (off, off)
    | inl on ↦
        rw (on, flag-call method x, on) (call-opposite method x c (ground (arith, ap by_flag)))
  ]

  loop_opposite :
      (notify notify' : Item → Bool) (items : List Item) (b b' : Board)
      → counts method ≡ true
      → by_flag ModifierFlag.capslock ≡ false
      → (for_items
          (λ x. by_flag x.flag)
          (call (opposite method))
          notify'
          []
          (for_items (λ x. by_flag x.flag) (call method) notify [] items b).0
          b').0
        ≡ items
  unfolding change
  loop_opposite notify notify' items b b' c n =
      rw
        (
          for_items_lem (λ x. by_flag x.flag) (call (opposite method)) notify' _ [] b',
          for_items_lem (λ x. by_flag x.flag) (call method) notify items [] b,
        )
        (map-map (change (opposite method)) (change method) items ∙ all_same items)
    where
      all_same : (xs : List Item) → map (λ x. change (opposite method) (change method x)) xs ≡ xs
      all_same [] = refl
      all_same (x ∷ xs) = ap₂ ◌∷◌ (change-opposite x c n) (all_same xs)

-- Increase and decrease, and their temporary and lazy kin, undo each other exactly, item by item,
-- in all three overloads, whatever happens to the status messages in between. The caps lock
-- modifier must not be among those that are named: its increase is a toggle.
pub method-opposite :
    (method : Method) (m : ℕ) (ms : List ℕ) (items : List Item) (b b' : Board)
    → counts method ≡ true
    → (m == ModifierFlag.capslock) ≡ false
    → is_include ms ModifierFlag.capslock ≡ false
    → ((method_flag (opposite method) m (method_flag method m items b).0 b').0 ≡ items)
      × ((method_vector (opposite method) ms (method_vector method ms items b).0 b').0 ≡ items)
      × ((method_flag_vector (opposite method) m ms (method_flag_vector method m ms items b).0 b').0
          ≡ items)
unfolding method_flag method_vector method_flag_vector
method-opposite method m ms items b b' c one all = (
  loop_opposite (λ f. m == f) method (notifies method) (notifies (opposite method)) items b b' c
      one,
  loop_opposite (λ f. is_include ms f) method (notifies method) (notifies (opposite method)) items b
      b' c all,
  loop_opposite (λ f. m == f || is_include ms f) method (notifies method)
      (notifies (opposite method)) items b b' c (ground arith),
)
