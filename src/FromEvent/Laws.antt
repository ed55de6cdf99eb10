-- ===== src/FromEvent/Laws.antt =====
-- How `FromEvent` (core/kext/Classes/FromEvent.cpp) counts what is held down.
use karabiner_cn.Base.{
  ℕ, zero, suc, ◌+◌, ◌-◌, ◌<◌, ◌≡◌, refl, ◌∙◌, ◌≢◌, inl, inr, Bool, true, false, not, ◌&&◌, ◌||◌,
  List, [], ◌∷◌, ◌++◌, Option, none, some, ◌==◌, arith, length, if◌then◌else◌, Bool-cases, ltb,
}
use karabiner_cn.FlagStatus
use karabiner_cn.FlagStatus.Counter.{Item}
use karabiner_cn.Params.{ParamsBase}
use karabiner_cn.FromEvent.{
  FromEvent, target_event, is_target_down_event, is_target_up_event, find, erase, erase_all_fuel,
  erase_all, change_pressing_state,
}

-- How often an address stands in the list.
unfoldable pub count : ℕ → List ℕ → ℕ
count p [] = 0
count p (q ∷ qs) = if q == p then suc (count p qs) else count p qs

pub find_count : (p : ℕ) (qs : List ℕ) → find p qs ≡ ltb 0 (count p qs)
unfolding count
find_count p [] = refl
find_count p (q ∷ qs) = ground (arith, find_count p qs)

count-append : (p : ℕ) (xs ys : List ℕ) → count p (xs ++ ys) ≡ count p xs + count p ys
unfolding count
count-append p [] ys = omega arith
count-append p (x ∷ xs) ys = ground (arith, count-append p xs ys)

-- `erase` takes one entry of the address away, if there is one, and says so.
erase_lem :
    (p q : ℕ) (qs : List ℕ)
    → ((erase p qs).0 ≡ ltb 0 (count p qs))
      × (count q (erase p qs).1 ≡ (if q == p then count q qs - 1 else count q qs))
unfolding count erase
erase_lem p q [] = ground arith
erase_lem p q (x ∷ xs) = ground (arith, erase_lem p q xs)

erase-length :
    (p : ℕ) (qs : List ℕ)
    → ((erase p qs).0 ≡ true → length qs ≡ suc (length (erase p qs).1))
      × ((erase p qs).0 ≡ false → (erase p qs).1 ≡ qs)
unfolding erase
erase-length p [] = ground arith
erase-length p (x ∷ xs) = ground (arith, erase-length p xs)

erase_all_fuel_lem :
    (n p : ℕ) (qs : List ℕ)
    → length qs < n
    → (rs : List ℕ) × (erase_all_fuel n p qs ≡ some rs)
      × (find p rs ≡ false)
      × ((q : ℕ) → q ≢ p → count q rs ≡ count q qs)
unfolding erase_all_fuel
erase_all_fuel_lem zero p qs h = absurd (omega arith)
erase_all_fuel_lem (suc n) p qs h = elim (Bool-cases (erase p qs).0) [
  | inl e ↦
      let rest = erase_all_fuel_lem n p (erase p qs).1 (omega (arith, (erase-length p qs).0 e)) in
      rw e (rest.0, rest.1, rest.2, λ q ne. rest.3 q ne ∙ ground (arith, (erase_lem p q qs).1))
  | inr e ↦
      let same = (erase-length p qs).1 e in
      rw (e, same) (qs, refl, ground (arith, find_count p qs, (erase_lem p p qs).0), λ q ne. refl)
]

-- The destructor of a `FromEvent` ends, leaves no entry of its address in the list of pressing
-- events, and leaves those of every other address.
pub erase_all_lem :
    (p : ℕ) (qs : List ℕ)
    → (rs : List ℕ) × (erase_all p qs ≡ some rs)
      × (find p rs ≡ false)
      × ((q : ℕ) → q ≢ p → count q rs ≡ count q qs)
erase_all_lem p qs = erase_all_fuel_lem (suc (length qs)) p qs (omega arith)

-- Whether the event presses the object: it is the object's own, down, and its flags are on.
abbrev pub accepts : FromEvent → ParamsBase → List Item → List ℕ → Bool
accepts e p current_flags from_flags =
    is_target_down_event e p && FlagStatus.are_on current_flags from_flags

-- `changePressingState` adds one entry of the object for a down event of its own with the flags on,
-- takes one away for an up event of its own whatever the flags, if there is one, and leaves
-- the number of entries alone otherwise and for every other object. It answers true exactly when
-- it adds or takes away an entry.
pub change_pressing_state_lem :
    (self q : ℕ) (e : FromEvent) (p : ParamsBase) (current_flags : List Item)
    (from_flags qs : List ℕ)
    → let r = change_pressing_state self e p current_flags from_flags qs in
      let accepted = accepts e p current_flags from_flags in
      let released = is_target_up_event e p && find self qs in
      (r.0 ≡ (accepted || released))
      × (count q r.1 ≡ (
          if q == self
          then (if accepted
              then suc (count q qs)
              else if released
              then count q qs - 1
              else count q qs)
          else count q qs))
unfolding change_pressing_state is_target_down_event is_target_up_event count
change_pressing_state_lem self q e p current_flags from_flags qs = by_event (target_event e p)
  where
    after : Option Bool → Bool × List ℕ
    after t = elim t [
      | none ↦ (false, qs)
      | some true ↦
          if FlagStatus.are_on current_flags from_flags
          then (true, qs ++ (self ∷ []))
          else (false, qs)
      | some false ↦ let r = erase self qs in (if r.0 then (true, r.1) else (false, r.1))
    ]

    one_count : count q (self ∷ []) ≡ (if q == self then 1 else 0)
    one_count = ground arith

    by_event :
        (t : Option Bool)
        → let accepted =
            elim t [ none ↦ false | some is_down ↦ is_down ]
            && FlagStatus.are_on current_flags from_flags in
          let released = elim t [ none ↦ false | some is_down ↦ not is_down ] && find self qs in
          ((after t).0 ≡ (accepted || released))
          × (count q (after t).1 ≡ (
              if q == self
              then (if accepted
                  then suc (count q qs)
                  else if released
                  then count q qs - 1
                  else count q qs)
              else count q qs))
    by_event none = (refl, ground arith)
    by_event (some true) = ground (arith, count-append q qs (self ∷ []), one_count)
    by_event (some false) = ground (arith, erase_lem self q qs, find_count self qs)
