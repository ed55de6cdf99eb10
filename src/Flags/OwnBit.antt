-- ===== src/Flags/OwnBit.antt =====
-- Each modifier that has raw bits has one bit that no other modifier has.
use karabiner_cn.Base.{
  ℕ, zero, suc, ◌^◌, ◌<◌, ◌≤◌, ◌≡◌, refl, ◌≢◌, Bool, true, false, not, ◌&&◌, ◌||◌, arith, ◌==◌,
  if◌then◌else◌, inl, inr, ◌⊎◌,
}
use karabiner_cn.Base.Bits.{testbit, testbit-zero}
use karabiner_cn.ModifierFlag
use karabiner_cn.ModifierFlag.{get_raw_bits}

abbrev pub own_bit : ℕ → ℕ
own_bit m =
    if m == ModifierFlag.capslock
    then 16
    else if m == ModifierFlag.shift_l
    then 1
    else if m == ModifierFlag.shift_r
    then 2
    else if m == ModifierFlag.control_l
    then 0
    else if m == ModifierFlag.control_r
    then 13
    else if m == ModifierFlag.option_l
    then 5
    else if m == ModifierFlag.option_r
    then 6
    else if m == ModifierFlag.command_l
    then 3
    else if m == ModifierFlag.command_r
    then 4
    else if m == ModifierFlag.numpad
    then 21
    else 23

pub get_raw_bits-none : (m : ℕ) → 11 < m → get_raw_bits m ≡ 0
unfolding get_raw_bits
get_raw_bits-none m h = ground arith

-- The test holds at n and at all numbers below it.
holds_upto : (ℕ → Bool) → ℕ → Bool
holds_upto test zero = test zero
holds_upto test (suc n) = holds_upto test n && test (suc n)

holds_at : (test : ℕ → Bool) (n m : ℕ) → m ≤ n → holds_upto test n ≡ true → test m ≡ true
unfolding holds_upto
holds_at test zero m le h = let e : m ≡ 0 = omega arith in rw e h
holds_at test (suc n) m le h =
    let top_or_below : (m ≡ suc n) ⊎ (m ≤ n) = omega arith in
    elim top_or_below [
      | inl e ↦ rw e (ground (arith, h))
      | inr below ↦ holds_at test n m below (ground (arith, h))
    ]

abbrev same : Bool → Bool → Bool
same a b = if a then b else not b

same_eq : (a b : Bool) → same a b ≡ true → a ≡ b
same_eq a b h = ground arith

abbrev entry : ℕ → ℕ → Bool
entry m f = get_raw_bits m == 0 || same (testbit (own_bit m) (get_raw_bits f)) (f == m)

table : holds_upto (λ m. holds_upto (λ f. entry m f) 11) 11 ≡ true
unfolding holds_upto get_raw_bits testbit
table = refl

entry_small : (m f : ℕ) → m < 12 → f < 12 → entry m f ≡ true
entry_small m f hm hf =
    holds_at (λ f. entry m f) 11 f (omega arith)
      (holds_at (λ m. holds_upto (λ f. entry m f) 11) 11 m (omega arith) table)

own_bit_split :
    (m f : ℕ)
    → (get_raw_bits m == 0) ≡ false
    → (m < 12) ⊎ (11 < m)
    → (f < 12) ⊎ (11 < f)
    → testbit (own_bit m) (get_raw_bits f) ≡ (f == m)
own_bit_split m f e (inl p) (inl q) = same_eq _ _ (rw e at (entry_small m f p q))
own_bit_split m f e (inl p) (inr q) =
    rw (get_raw_bits-none f q, testbit-zero (own_bit m)) (ground arith)
own_bit_split m f e (inr p) q = ground (arith, get_raw_bits-none m p)

small_or_large : (x : ℕ) → (x < 12) ⊎ (11 < x)
small_or_large x = omega arith

-- The own bit of `m` is set in the raw bits of `m` alone.
pub testbit-own_bit :
    (m f : ℕ) → get_raw_bits m ≢ 0 → testbit (own_bit m) (get_raw_bits f) ≡ (f == m)
testbit-own_bit m f h = own_bit_split m f (ground arith) (small_or_large m) (small_or_large f)

pub own_bit-lt : (m : ℕ) → own_bit m < 32
own_bit-lt m = ground arith

pub get_raw_bits-lt : (m : ℕ) → get_raw_bits m < 2 ^ 32
unfolding get_raw_bits
get_raw_bits-lt m = ground arith

pub nonzero_modifier : (m : ℕ) → get_raw_bits m ≢ 0 → (m == ModifierFlag.zero) ≡ false
unfolding get_raw_bits
nonzero_modifier m h = ground arith
