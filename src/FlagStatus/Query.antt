-- ===== src/FlagStatus/Query.antt =====
-- What the queries of `FlagStatus` (core/kext/Classes/FlagStatus.cpp) answer.
use karabiner_cn.Base.{
  ℕ, ◌≡◌, refl, ap, ◌∙◌, ◌≢◌, ◌⊎◌, inl, inr, ◌↔◌, Bool, true, false, not, ◌&&◌, ◌||◌, List, [], ◌∷◌,
  ◌==◌, ==_iff, ltb→lt, lt→ltb, arith, if◌then◌else◌, is_include, All, any_of, Bool-cases,
}
use karabiner_cn.Base.Int.{
  is_pos, inc, ◌+ℤ◌, ◌-ℤ◌, ◌≤ℤ◌, int_laws, pos_part, neg_part, parts_exclusive,
}
use karabiner_cn.Flags
use karabiner_cn.Flags.{of_modifiers_from, of_modifiers}
use karabiner_cn.Flags.Laws.{is_on-of_modifiers}
use karabiner_cn.ModifierFlag
use karabiner_cn.ModifierFlag.{get_raw_bits}
use karabiner_cn.FlagStatus.{is_on, are_on, all_on, only_listed, make_flags, make_flags_from}
use karabiner_cn.FlagStatus.Counter.{Item, sum}

-- The modifiers whose sum is positive, in order.
unfoldable pub active : Bool → List Item → List ℕ
unfolding sum
active force [] = []
active force (x ∷ xs) = if is_pos (sum x force) then x.flag ∷ active force xs else active force xs

make_flags-of_modifiers :
    (flags : ℕ) (xs : List Item)
    → make_flags_from flags xs ≡ of_modifiers_from flags (active false xs)
unfolding make_flags_from active of_modifiers_from
make_flags-of_modifiers flags [] = refl
make_flags-of_modifiers flags (x ∷ xs) = elim (Bool-cases (is_pos (sum x false))) [
  | inl on ↦ rw on (make_flags-of_modifiers (Flags.add flags x.flag) xs)
  | inr off ↦ rw off (make_flags-of_modifiers flags xs)
]

include-active :
    (force : Bool) (xs : List Item) (m : ℕ)
    → is_include (active force xs) m ≡ any_of (λ x. x.flag == m && is_pos (sum x force)) xs
unfolding active
include-active force [] m = refl
include-active force (x ∷ xs) m = ground (arith, include-active force xs m)

-- The `Flags` that `makeFlags` builds are on for a modifier with raw bits exactly when some item of
-- that modifier has a positive sum, its lazy count included only if the item is lazy enabled.
pub is_on-make_flags :
    (items : List Item) (m : ℕ)
    → get_raw_bits m ≢ 0
    → Flags.is_on (make_flags items) m ≡ any_of (λ x. x.flag == m && is_pos (sum x false)) items
is_on-make_flags items m h =
    ap (λ f. Flags.is_on f m) (make_flags-of_modifiers 0 items)
    ∙ is_on-of_modifiers (active false items) m h
    ∙ include-active false items m

-- The counters of an item, the lazy one included, sum up to more than its negative locks.
abbrev pub IsOn : Item → Type 0
IsOn x =
    inc x.negative_lock_count
    ≤ℤ (x.count +ℤ x.temporary_count +ℤ x.lock_count +ℤ x.sticky_count +ℤ x.lazy_count)

-- The first item of a modifier is on.
pub data FirstOn (m : ℕ) : List Item → Type 0 where
  here : (x : Item) (xs : List Item) → x.flag ≡ m → IsOn x → FirstOn m (x ∷ xs)
  there : (x : Item) (xs : List Item) → x.flag ≢ m → FirstOn m xs → FirstOn m (x ∷ xs)

-- The modifier is a placeholder, or its first item is on.
abbrev pub IsSatisfied : List Item → ℕ → Type 0
IsSatisfied items m = (m ≡ ModifierFlag.zero) ⊎ (m ≡ ModifierFlag.none) ⊎ FirstOn m items

sum-forced :
    (x : Item)
    → sum x true
      ≡ x.count +ℤ x.temporary_count +ℤ x.lock_count -ℤ x.negative_lock_count +ℤ x.sticky_count
        +ℤ x.lazy_count
unfolding sum
sum-forced x = refl

IsOn-of_is_pos : (x : Item) → is_pos (sum x true) ≡ true → IsOn x
IsOn-of_is_pos x e = omega (
  int_laws,
  ltb→lt _ _ e,
  ap pos_part (sum-forced x),
  ap neg_part (sum-forced x),
  parts_exclusive (sum x true),
)

is_pos_of_IsOn : (x : Item) → IsOn x → is_pos (sum x true) ≡ true
is_pos_of_IsOn x h = lt→ltb _ _ (
    omega (
      int_laws,
      ap pos_part (sum-forced x),
      ap neg_part (sum-forced x),
      parts_exclusive (sum x true),
    ))

is_on-FirstOn : (items : List Item) (m : ℕ) → is_on items m ≡ true → FirstOn m items
unfolding is_on
is_on-FirstOn [] m e = cc
is_on-FirstOn (x ∷ xs) m e = elim (Bool-cases (x.flag == m)) [
  | inl same ↦ here x xs ((==_iff _ _).0 same) (IsOn-of_is_pos x (rw same at e))
  | inr other ↦ there x xs (ground arith) (is_on-FirstOn xs m (rw other at e))
]

FirstOn-is_on : (m : ℕ) (items : List Item) → FirstOn m items → is_on items m ≡ true
unfolding is_on
FirstOn-is_on m _ (here x xs same on) = rw ((==_iff _ _).1 same) (is_pos_of_IsOn x on)
FirstOn-is_on m _ (there x xs other h) =
    let e : (x.flag == m) ≡ false = ground arith in rw e (FirstOn-is_on m xs h)

-- The same by the answer of `isOn`.
abbrev IsPassed : List Item → ℕ → Type 0
IsPassed items m = (m ≡ ModifierFlag.zero) ⊎ (m ≡ ModifierFlag.none) ⊎ (is_on items m ≡ true)

IsPassed-iff : (items : List Item) (m : ℕ) → IsPassed items m ↔ IsSatisfied items m
IsPassed-iff items m = (there_way, back_way)
  where
    there_way : IsPassed items m → IsSatisfied items m
    there_way (inl e) = inl e
    there_way (inr (inl e)) = inr (inl e)
    there_way (inr (inr e)) = inr (inr (is_on-FirstOn items m e))

    back_way : IsSatisfied items m → IsPassed items m
    back_way (inl e) = inl e
    back_way (inr (inl e)) = inr (inl e)
    back_way (inr (inr h)) = inr (inr (FirstOn-is_on m items h))

all_on-cons :
    (items : List Item) (m : ℕ) (ms : List ℕ)
    → (all_on items (m ∷ ms) ≡ true) ↔ (IsPassed items m × (all_on items ms ≡ true))
unfolding all_on
all_on-cons items m ms = (λ (e : all_on items (m ∷ ms) ≡ true). ground arith, λ a. ground arith)

all_on_iff :
    (items : List Item) (ms : List ℕ) → (all_on items ms ≡ true) ↔ All (IsSatisfied items) ms
unfolding all_on
all_on_iff items [] = (λ e. tt, λ a. refl)
all_on_iff items (m ∷ ms) = (
  (λ e.
      let p = (all_on-cons items m ms).0 e in
      ((IsPassed-iff items m).0 p.0, (all_on_iff items ms).0 p.1)),
  (λ a. (all_on-cons items m ms).1 ((IsPassed-iff items m).1 a.0, (all_on_iff items ms).1 a.1)),
)

abbrev pub IsListed : List ℕ → Item → Type 0
IsListed ms x = IsOn x → is_include ms x.flag ≡ true

only_listed_iff :
    (items : List Item) (ms : List ℕ) → (only_listed items ms ≡ true) ↔ All (IsListed ms) items
unfolding only_listed
only_listed_iff [] ms = (λ e. tt, λ a. refl)
only_listed_iff (x ∷ xs) ms = (
  (λ e. (λ on. ground (arith, is_pos_of_IsOn x on), (only_listed_iff xs ms).0 (ground arith))),
  (λ a. ground (
    arith,
    λ (p : is_pos (sum x true) ≡ true). a.0 (IsOn-of_is_pos x p),
    (only_listed_iff xs ms).1 a.1,
  )),
)

-- `isOn` of a vector holds exactly when for every listed modifier other than `ZERO` and `NONE` the
-- first item is on and, if `NONE` is listed, no item is on whose modifier the vector does not list.
-- An item is on if its counters, the lazy one included, sum up to more than its negative lock count.
pub are_on_iff :
    (items : List Item) (ms : List ℕ)
    → (are_on items ms ≡ true) ↔ (
        All (IsSatisfied items) ms
        × (is_include ms ModifierFlag.none ≡ true → All (IsListed ms) items))
unfolding are_on
are_on_iff items ms = (
  (λ e. (
    (all_on_iff items ms).0 (ground arith),
    (λ strict. (only_listed_iff items ms).0 (ground arith)),
  )),
  (λ a. ground (arith, (all_on_iff items ms).1 a.0, strict_part a.1)),
)
  where
    strict_part :
        (is_include ms ModifierFlag.none ≡ true → All (IsListed ms) items)
        → (not (is_include ms ModifierFlag.none) || only_listed items ms) ≡ true
    strict_part f = elim (Bool-cases (is_include ms ModifierFlag.none)) [
      | inl e ↦ rw e ((only_listed_iff items ms).1 (f e))
      | inr e ↦ rw e
    ]
