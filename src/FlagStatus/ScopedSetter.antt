-- ===== src/FlagStatus/ScopedSetter.antt =====
-- `FlagStatus::ScopedSetter` of core/kext/Classes/FlagStatus.hpp: the sums of one `FlagStatus` are
-- set to those of another for the time of a scope, by decreases and increases that the destructor
-- takes back.
pub mod Scope
pub mod Restore
pub mod Sums
use karabiner_cn.Base.{
  ℕ, zero, suc, ◌+◌, ◌≡◌, refl, sym, ap, ap₂, ◌∙◌, ◌≢◌, ◌⊎◌, inl, inr, Bool, true, false, ◌&&◌,
  ◌||◌, List, [], ◌∷◌, ◌++◌, map, ◌==◌, ==_iff, arith, if◌then◌else◌, is_include, All, Bool-cases,
  map-map, length, replicate,
}
use karabiner_cn.Base.Int.{ℤ, pos, ◌+ℤ◌, ◌-ℤ◌, inc, dec, pos_part, int_laws}
use karabiner_cn.ModifierFlag
use karabiner_cn.StatusMessage.{Board}
use karabiner_cn.FlagStatus.{notifies, method_flag, subtract, subtract_items}
use karabiner_cn.FlagStatus.Counter.{Item, Method, call, sum, lnot}
use karabiner_cn.FlagStatus.Loop.{for_items_lem}

-- The loops over `added_` and `removed_`: one call of the method for each entry.
unfoldable pub method_each : Method → List ℕ → List Item × Board → List Item × Board
unfolding method_flag
method_each method [] s = s
method_each method (m ∷ ms) (items, b) = method_each method ms (method_flag method m items b)

pub record Setter : Type 0 where
  pub added : List ℕ
  pub removed : List ℕ

-- The constructor: `newval` is a copy of its own, so that both vectors are taken before any change.
unfoldable pub enter : List Item → List Item → Board → Setter × (List Item × Board)
unfolding subtract method_each
enter items newval b =
    let added = subtract items newval in
    let removed = subtract newval items in
    (
      record { added = added; removed = removed },
      method_each Method.increases removed (method_each Method.decreases added (items, b)),
    )

-- The destructor.
unfoldable pub leave : Setter → List Item → Board → List Item × Board
unfolding method_each
leave s items b =
    method_each Method.decreases s.removed (method_each Method.increases s.added (items, b))

-- How often a modifier stands in a vector.
abbrev pub count : ℕ → List ℕ → ℕ
count m [] = 0
count m (x ∷ xs) = if x == m then suc (count m xs) else count m xs

-- A method called as often as a number says.
unfoldable pub times : ℕ → Method → Item → Item
unfolding call
times zero method x = x
times (suc n) method x = times n method (call method x)

pub flag-call : (method : Method) (x : Item) → (call method x).flag ≡ x.flag
unfolding call
flag-call Method.increases x = ground arith
flag-call _ x = ground arith

-- The calls for a vector change each item as often as the vector names it.
pub method_each_lem :
    (method : Method) (ms : List ℕ) (items : List Item) (b : Board)
    → (method_each method ms (items, b)).0 ≡ map (λ x. times (count x.flag ms) method x) items
unfolding method_each method_flag times
method_each_lem method [] items b = same items
  where
    same : (xs : List Item) → xs ≡ map (λ x. x) xs
    same [] = refl
    same (x ∷ xs) = ap (◌∷◌ x) (same xs)
method_each_lem method (m ∷ ms) items b =
    method_each_lem method ms _ _
    ∙ ap (map (λ x. times (count x.flag ms) method x))
        (for_items_lem (λ x. m == x.flag) (call method) (notifies method) items [] b)
    ∙ map-map _ _ items
    ∙ all items
  where
    one :
        (x : Item)
        → times
            (count (if m == x.flag then call method x else x).flag ms)
            method
            (if m == x.flag then call method x else x)
          ≡ times (count x.flag (m ∷ ms)) method x
    one x = elim (Bool-cases (m == x.flag)) [ inl e ↦ rw (e, flag-call method x) | inr e ↦ rw e ]

    all :
        (xs : List Item)
        → map
            (λ x.
              times
                (count (if m == x.flag then call method x else x).flag ms)
                method
                (if m == x.flag then call method x else x))
            xs
          ≡ map (λ x. times (count x.flag (m ∷ ms)) method x) xs
    all [] = refl
    all (x ∷ xs) = ap₂ ◌∷◌ (one x) (all xs)
