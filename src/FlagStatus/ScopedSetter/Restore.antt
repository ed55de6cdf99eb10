-- ===== src/FlagStatus/ScopedSetter/Restore.antt =====
-- What is left of a `ScopedSetter` (core/kext/Classes/FlagStatus.hpp) behind its scope.
use karabiner_cn.Base.{
  ℕ, zero, suc, ◌+◌, ◌≡◌, refl, All, ap, ◌∙◌, true, false, List, ◌==◌, arith, if◌then◌else◌,
}
use karabiner_cn.Base.Int.{ℤ, pos, ◌+ℤ◌, ◌-ℤ◌, int_laws}
use karabiner_cn.ModifierFlag
use karabiner_cn.FlagStatus.Counter.{Item, Method, call, lnot}
use karabiner_cn.FlagStatus.ScopedSetter.Scope.{Step, IsAllowed}
use karabiner_cn.FlagStatus.ScopedSetter.{count, times, flag-call}

-- `lock_count = !lock_count`, repeated.
abbrev pub toggled : ℕ → ℤ → ℤ
toggled zero n = n
toggled (suc k) n = toggled k (lnot n)

pub toggled-add : (k l : ℕ) (n : ℤ) → toggled l (toggled k n) ≡ toggled (k + l) n
toggled-add zero l n = let e : l ≡ 0 + l = omega arith in ap (λ j. toggled j n) e
toggled-add (suc k) l n =
    let e : suc (k + l) ≡ suc k + l = omega arith in
    toggled-add k l (lnot n) ∙ ap (λ j. toggled j n) e

module _ (x : Item) (ordinary : (x.flag == ModifierFlag.capslock) ≡ false) where
  abbrev pub with_count : ℤ → Item
  with_count n = record x { count = n }

  pub times_increases_from :
      (k : ℕ) (n : ℤ) → times k Method.increases (with_count n) ≡ with_count (n +ℤ pos k)
  unfolding times call
  times_increases_from zero n = ap (λ (j : ℤ). record x { count = j }) (omega int_laws)
  times_increases_from (suc k) n =
      rw ordinary
        (times_increases_from k _ ∙ ap (λ (j : ℤ). record x { count = j }) (omega int_laws))

  pub times_decreases_from :
      (k : ℕ) (n : ℤ) → times k Method.decreases (with_count n) ≡ with_count (n -ℤ pos k)
  unfolding times call
  times_decreases_from zero n = ap (λ (j : ℤ). record x { count = j }) (omega int_laws)
  times_decreases_from (suc k) n =
      rw ordinary
        (times_decreases_from k _ ∙ ap (λ (j : ℤ). record x { count = j }) (omega int_laws))

module _ (x : Item) (caps : (x.flag == ModifierFlag.capslock) ≡ true) where
  abbrev with_lock : ℤ → Item
  with_lock n = record x { lock_count = n }

-- An item behind the scope: only the lock count of caps lock can differ, toggled once for each
-- entry of either vector.
abbrev pub behind : List ℕ → List ℕ → Item → Item
behind added removed x =
    if x.flag == ModifierFlag.capslock
    then record x { lock_count = toggled (count x.flag removed + count x.flag added) x.lock_count }
    else x

pub flag-times : (n : ℕ) (method : Method) (x : Item) → (times n method x).flag ≡ x.flag
unfolding times
flag-times zero method x = refl
flag-times (suc n) method x = flag-times n method (call method x) ∙ flag-call method x

module _ (added removed : List ℕ) (ts : List Step) (allowed : All IsAllowed ts) where
  decreased : List ℕ → Item → Item
  decreased ms x = times (count x.flag ms) Method.decreases x

  increased : List ℕ → Item → Item
  increased ms x = times (count x.flag ms) Method.increases x
