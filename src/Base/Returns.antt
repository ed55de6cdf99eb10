-- ===== src/Base/Returns.antt =====
-- An optional result that is there, for runs in which none stands for a fault or for fuel that has
-- run out.
use mathlib.Core.Path.{◌≡◌, refl}
use mathlib.Core.Logic.{◌≢◌}
use mathlib.Core.Option.{Option, none, some}

abbrev pub Returns {ℓ} : {A : Type ℓ} → Option A → Type ℓ
Returns o = o ≢ none

module _ {ℓ} {A : Type ℓ} where
  pub Returns-some : (o : Option A) → Returns o → (a : A) × (o ≡ some a)
  Returns-some none h = absurd (h refl)
  Returns-some (some a) h = (a, refl)

  pub some-Returns : (a : A) → Returns (some a)
  some-Returns a e = cc

  -- One step after another.
  pub Returns-bind {κ} :
      {B : Type κ} (o : Option A) (f : A → Option B)
      → Returns o
      → ((a : A) → o ≡ some a → Returns (f a))
      → Returns (elim o [ none ↦ none | some a ↦ f a ])
  Returns-bind none f h next = absurd (h refl)
  Returns-bind (some a) f h next = next a refl
