-- ===== src/FlagStatus/Invariant.antt =====
-- What every public method that changes a `FlagStatus` (core/kext/Classes/FlagStatus.hpp) keeps.
use karabiner_cn.Base.{
  ℕ, ◌≡◌, refl, ap, ap₂, ◌∙◌, ◌⊎◌, inl, inr, Bool, List, [], ◌∷◌, map, arith, if◌then◌else◌, All,
  Bool-cases,
}
use karabiner_cn.Base.Int.{ℤ, pos}
use karabiner_cn.KeyCodeModifierFlagPairs.{Pair, modifier_flags}
use karabiner_cn.StatusMessage.{Board}
use karabiner_cn.FlagStatus
use karabiner_cn.FlagStatus.Counter
use karabiner_cn.FlagStatus.Counter.{Item, Method}
use karabiner_cn.FlagStatus.Loop.{for_items, for_items_lem, visit}

-- A call of a public method that changes the object.
pub data Call : Type 0 where
  sets resets : Call
  sets_key : ℕ → ℕ → Call
  one : Method → ℕ → Call
  one_and_vector : Method → ℕ → List ℕ → Call
  vector : Method → List ℕ → Call
  sticky_active : Method → Call
  clears_sticky clears_lock clears_negative_lock : Call
  enables_lazy disables_lazy : Call

unfoldable pub step : List Pair → Call → List Item × Board → List Item × Board
step pairs sets (items, b) = FlagStatus.set items b
step pairs resets (items, b) = FlagStatus.reset items b
step pairs (sets_key key flags) (items, b) = FlagStatus.set_key pairs key flags items b
step pairs (one method m) (items, b) = FlagStatus.method_flag method m items b
step pairs (one_and_vector method m ms) (items, b) =
    FlagStatus.method_flag_vector method m ms items b
step pairs (vector method ms) (items, b) = FlagStatus.method_vector method ms items b
step pairs (sticky_active method) (items, b) = FlagStatus.sticky_active_modifiers method items b
step pairs clears_sticky (items, b) = FlagStatus.sticky_clear items b
step pairs clears_lock (items, b) = FlagStatus.lock_clear items b
step pairs clears_negative_lock (items, b) = FlagStatus.negative_lock_clear items b
step pairs enables_lazy (items, b) = (FlagStatus.lazy_enable items, b)
step pairs disables_lazy (items, b) = (FlagStatus.lazy_disable_if_off items, b)

unfoldable pub run : List Pair → List Call → List Item × Board → List Item × Board
unfolding step
run pairs [] s = s
run pairs (c ∷ cs) s = run pairs cs (step pairs c s)

abbrev pub IsZeroOrOne : ℤ → Type 0
IsZeroOrOne n = (n ≡ pos 0) ⊎ (n ≡ pos 1)

-- The lock, the negative lock and the sticky counter hold 0 or 1.
pub record IsValid (x : Item) : Type 0 where
  pub lock : IsZeroOrOne x.lock_count
  pub negative_lock : IsZeroOrOne x.negative_lock_count
  pub sticky : IsZeroOrOne x.sticky_count

-- A change of one item that keeps its modifier and its validity.
abbrev Keeps : (Item → Item) → Type 0
Keeps f = (x : Item) → ((f x).flag ≡ x.flag) × (IsValid x → IsValid (f x))

abbrev pub flags : List Item → List ℕ
flags = map λ x. x.flag

map-Keeps :
    (f : Item → Item)
    → Keeps f
    → (xs : List Item) → (flags (map f xs) ≡ flags xs) × (All IsValid xs → All IsValid (map f xs))
map-Keeps f k [] = (refl, λ v. tt)
map-Keeps f k (x ∷ xs) =
    (ap₂ ◌∷◌ (k x).0 (map-Keeps f k xs).0, λ v. ((k x).1 v.0, (map-Keeps f k xs).1 v.1))

if-Keeps : (test : Item → Bool) (f : Item → Item) → Keeps f → Keeps (λ x. if test x then f x else x)
if-Keeps test f k x = elim (Bool-cases (test x)) [
  | inl e ↦ rw e (k x)
  | inr e ↦ rw e (refl, λ v. v)
]

call-Keeps : (method : Method) → Keeps (Counter.call method)
unfolding Counter.call
call-Keeps Method.increases x = (ground arith, λ v. ground arith)
call-Keeps _ x = (ground arith, λ v. ground arith)

loop-Keeps :
    (select : Item → Bool) (change : Item → Item) (notify : Item → Bool) (items : List Item)
    (b : Board)
    → Keeps change
    → let after = (for_items select change notify [] items b).0 in
      (flags after ≡ flags items) × (All IsValid items → All IsValid after)
loop-Keeps select change notify items b k =
    rw (for_items_lem select change notify items [] b)
      (map-Keeps _ (if-Keeps select change k) items)

set_key-Keeps : (pairs : List Pair) (key flags : ℕ) → Keeps (Counter.set_key pairs key flags)
unfolding Counter.set_key
set_key-Keeps pairs key flags x = (ground arith, λ v. ground arith)

-- Every public method that changes a `FlagStatus` keeps its list of modifiers, and keeps the lock,
-- negative lock and sticky counters of all items at 0 or 1.
pub step-IsValid :
    (pairs : List Pair) (c : Call) (items : List Item) (b : Board)
    → let after = (step pairs c (items, b)).0 in
      (flags after ≡ flags items) × (All IsValid items → All IsValid after)
unfolding step FlagStatus.set FlagStatus.reset FlagStatus.set_key FlagStatus.method_flag
    FlagStatus.method_flag_vector FlagStatus.method_vector FlagStatus.sticky_active_modifiers
    FlagStatus.sticky_clear FlagStatus.lock_clear FlagStatus.negative_lock_clear
    FlagStatus.lazy_enable FlagStatus.lazy_disable_if_off visit
step-IsValid pairs sets items b = map-Keeps _ (λ x. (refl, λ v. ground arith)) items
step-IsValid pairs resets items b = map-Keeps _ (λ x. (refl, λ v. ground arith)) items
step-IsValid pairs (sets_key key flags) items b = map-Keeps _ (set_key-Keeps pairs key flags) items
step-IsValid pairs (one method m) items b =
    loop-Keeps _ _ (FlagStatus.notifies method) items b (call-Keeps method)
step-IsValid pairs (one_and_vector method m ms) items b =
    loop-Keeps _ _ (FlagStatus.notifies method) items b (call-Keeps method)
step-IsValid pairs (vector method ms) items b =
    loop-Keeps _ _ (FlagStatus.notifies method) items b (call-Keeps method)
step-IsValid pairs (sticky_active method) items b =
    map-Keeps _ (if-Keeps _ _ (call-Keeps method)) items
step-IsValid pairs clears_sticky items b = map-Keeps _ (call-Keeps Method.sticky_decrease) items
step-IsValid pairs clears_lock items b = map-Keeps _ (λ x. (ground arith, λ v. ground arith)) items
step-IsValid pairs clears_negative_lock items b =
    map-Keeps _ (λ x. (ground arith, λ v. ground arith)) items
step-IsValid pairs enables_lazy items b = map-Keeps _ (λ x. (refl, λ v. ground arith)) items
step-IsValid pairs disables_lazy items b =
    map-Keeps _ (λ x. (ground arith, λ v. ground arith)) items

initialize-IsValid :
    (ms : List ℕ)
    → (flags (map Counter.initialize ms) ≡ ms) × All IsValid (map Counter.initialize ms)
unfolding Counter.initialize
initialize-IsValid [] = (refl, tt)
initialize-IsValid (m ∷ ms) =
    (ap (◌∷◌ m) (initialize-IsValid ms).0, (ground arith, (initialize-IsValid ms).1))

run-IsValid_from :
    (pairs : List Pair) (cs : List Call) (items : List Item) (b : Board)
    → All IsValid items
    → let after = (run pairs cs (items, b)).0 in (flags after ≡ flags items) × All IsValid after
unfolding run
run-IsValid_from pairs [] items b v = (refl, v)
run-IsValid_from pairs (c ∷ cs) items b v =
    let now = step-IsValid pairs c items b in
    let later =
      run-IsValid_from pairs cs (step pairs c (items, b)).0 (step pairs c (items, b)).1 (now.1 v) in
    (later.0 ∙ now.0, later.1)

-- After `initialize` and any calls there is one item for each registered modifier, in the order of
-- the table, and every lock, negative lock and sticky counter is 0 or 1.
pub run-IsValid :
    (pairs : List Pair) (cs : List Call) (b : Board)
    → let after = (run pairs cs (FlagStatus.initialize pairs, b)).0 in
      (flags after ≡ modifier_flags pairs) × All IsValid after
unfolding FlagStatus.initialize
run-IsValid pairs cs b =
    let fresh = initialize-IsValid (modifier_flags pairs) in
    let rest = run-IsValid_from pairs cs _ b fresh.1 in (rest.0 ∙ fresh.0, rest.1)
