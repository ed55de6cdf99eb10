-- ===== src/Flags/Laws.antt =====
-- What the bit operations of `Flags` mean for the modifiers: `isOn` after the constructor from a
-- list, and after `remove`.
use karabiner_cn.Base.{
  ℕ, ◌≤◌, ◌<◌, ◌^◌, ◌≡◌, ap, ◌∙◌, ◌≢◌, ◌⊎◌, inl, inr, ◌↔◌, true, false, not, ◌&&◌, ◌||◌, List, [],
  ◌∷◌, arith, ◌==◌, ==_iff, ==_refl, Bool-cases, Bool-ext, bit_and, bit_or, is_include,
}
use karabiner_cn.Base.Bits.{
  testbit, testbit-zero, testbit-bit_or, testbit-bit_and, testbit-complement, testbit_high,
  complement, eq_of_testbit,
}
use karabiner_cn.ModifierFlag
use karabiner_cn.ModifierFlag.{get_raw_bits}
use karabiner_cn.Flags.{of_modifiers, of_modifiers_from, is_on, restore, remove}
use karabiner_cn.Flags.OwnBit.{own_bit, testbit-own_bit, get_raw_bits-lt, nonzero_modifier}

-- Every bit of `b` is set in `a`.
abbrev pub Covers : ℕ → ℕ → Type 0
Covers a b = (k : ℕ) → testbit k b ≡ true → testbit k a ≡ true

pub Covers-of_mask : (a b : ℕ) → bit_and a b ≡ b → Covers a b
Covers-of_mask a b e k h = ground (arith, testbit-bit_and k a b, ap (testbit k) e)

pub mask_of_Covers : (a b : ℕ) → Covers a b → bit_and a b ≡ b
mask_of_Covers a b c = eq_of_testbit _ _ (λ k. ground (arith, testbit-bit_and k a b, c k))

-- `isOn` of a modifier with raw bits: all of them are set.
pub is_on-Covers :
    (value m : ℕ) → get_raw_bits m ≢ 0 → (is_on value m ≡ true) ↔ Covers value (get_raw_bits m)
unfolding is_on
is_on-Covers value m h =
    let nz : (m == ModifierFlag.zero) ≡ false = nonzero_modifier m h in
    let raw : (get_raw_bits m == 0) ≡ false = ground arith in
    rw (nz, raw)
      (
        (λ e. Covers-of_mask value _ ((==_iff _ _).0 e)),
        (λ c. (==_iff _ _).1 (mask_of_Covers value _ c)),
      )

-- Whatever `isOn` answers yes to has all its bits set.
Covers-of_is_on : (value m : ℕ) → is_on value m ≡ true → Covers value (get_raw_bits m)
Covers-of_is_on value m e = elim (Bool-cases (get_raw_bits m == 0)) [
  | inl z ↦ rw ((==_iff _ 0).0 z) (λ k h. ground (arith, testbit-zero k))
  | inr n ↦ (is_on-Covers value m (ground arith)).0 e
]

-- So `isOn` fails where the own bit is missing.
pub is_on-own_bit :
    (value m : ℕ) → get_raw_bits m ≢ 0 → is_on value m ≡ true → testbit (own_bit m) value ≡ true
is_on-own_bit value m h e =
    (is_on-Covers value m h).0 e (own_bit m) (testbit-own_bit m m h ∙ ==_refl m)

pub Covers-bit_or_left : (a b c : ℕ) → Covers a c → Covers (bit_or a b) c
Covers-bit_or_left a b c h k e = ground (arith, testbit-bit_or k a b, h k)

pub Covers-bit_or_right : (a b : ℕ) → Covers (bit_or a b) b
Covers-bit_or_right a b k e = ground (arith, testbit-bit_or k a b)

-- The constructor from a list keeps the bits that it has.
Covers-of_modifiers_from :
    (ms : List ℕ) (value c : ℕ) → Covers value c → Covers (of_modifiers_from value ms) c
unfolding of_modifiers_from
Covers-of_modifiers_from [] value c h = h
Covers-of_modifiers_from (m ∷ ms) value c h =
    Covers-of_modifiers_from ms _ c (Covers-bit_or_left value (get_raw_bits m) c h)

Covers-member :
    (ms : List ℕ) (value m : ℕ)
    → is_include ms m ≡ true
    → Covers (of_modifiers_from value ms) (get_raw_bits m)
unfolding of_modifiers_from
Covers-member [] value m h = cc
Covers-member (x ∷ xs) value m h = elim (Bool-cases (x == m)) [
  | inl e ↦
      rw ((==_iff x m).0 e)
        (Covers-of_modifiers_from xs _ _ (Covers-bit_or_right value (get_raw_bits m)))
  | inr e ↦ Covers-member xs _ m (ground arith)
]

testbit-own_bit-of_modifiers :
    (value m : ℕ) (ms : List ℕ)
    → get_raw_bits m ≢ 0
    → testbit (own_bit m) (of_modifiers_from value ms)
      ≡ (testbit (own_bit m) value || is_include ms m)
unfolding of_modifiers_from
testbit-own_bit-of_modifiers value m [] h = ground arith
testbit-own_bit-of_modifiers value m (x ∷ xs) h = ground (
  arith,
  testbit-own_bit-of_modifiers (bit_or value (get_raw_bits x)) m xs h,
  testbit-bit_or (own_bit m) value (get_raw_bits x),
  testbit-own_bit m x h,
)

-- `Flags` made of a list of modifiers is on for exactly the modifiers of the list, for each
-- modifier that has raw bits.
pub is_on-of_modifiers :
    (ms : List ℕ) (m : ℕ) → get_raw_bits m ≢ 0 → is_on (of_modifiers ms) m ≡ is_include ms m
is_on-of_modifiers ms m h =
    Bool-ext _ _
      (λ e. ground (
        arith,
        is_on-own_bit (of_modifiers ms) m h e,
        testbit-own_bit-of_modifiers 0 m ms h,
        testbit-zero (own_bit m),
      ))
      (λ e. (is_on-Covers _ m h).1 (Covers-member ms 0 m e))

module _ (old m : ℕ) where
  Covers-restore : (fs : List ℕ) (value c : ℕ) → Covers value c → Covers (restore old m fs value) c
  unfolding restore
  Covers-restore [] value c h = h
  Covers-restore (f ∷ fs) value c h =
      Covers-restore fs _ c (λ k e. ground (arith, testbit-bit_or k value (get_raw_bits f), h k e))

  -- Only bits of the old word come back.
  Covers-old-restore :
      (fs : List ℕ) (value : ℕ) → Covers old value → Covers old (restore old m fs value)
  unfolding restore
  Covers-old-restore [] value h = h
  Covers-old-restore (f ∷ fs) value h = Covers-old-restore fs _ (λ k e. ground (
    arith,
    testbit-bit_or k value (get_raw_bits f),
    h k,
    λ (on : is_on old f ≡ true). Covers-of_is_on old f on k,
  ))

  -- The bits of another registered modifier that was on are all back.
  Covers-restored :
      (fs : List ℕ) (value f : ℕ)
      → is_include fs f ≡ true
      → (f == m) ≡ false
      → is_on old f ≡ true
      → Covers (restore old m fs value) (get_raw_bits f)
  unfolding restore
  Covers-restored [] value f i ne on = cc
  Covers-restored (x ∷ xs) value f i ne on = elim (Bool-cases (x == f)) [
    | inl e ↦
        let e' : x ≡ f = (==_iff x f).0 e in
        rw (e', ne, on) (Covers-restore xs _ _ (Covers-bit_or_right value (get_raw_bits f)))
    | inr e ↦ Covers-restored xs _ f (ground arith) ne on
  ]

  -- The own bit of the modifier that is removed does not come back.
  testbit-own_bit-restore :
      (fs : List ℕ) (value : ℕ)
      → get_raw_bits m ≢ 0
      → testbit (own_bit m) value ≡ false
      → testbit (own_bit m) (restore old m fs value) ≡ false
  unfolding restore
  testbit-own_bit-restore [] value h off = off
  testbit-own_bit-restore (f ∷ fs) value h off =
      testbit-own_bit-restore fs _ h
        (ground (arith, testbit-bit_or (own_bit m) value (get_raw_bits f), testbit-own_bit m f h))

testbit-masked :
    (value m k : ℕ)
    → value < 2 ^ 32
    → testbit k (bit_and value (complement 32 (get_raw_bits m)))
      ≡ (testbit k value && not (testbit k (get_raw_bits m)))
testbit-masked value m k h = elim (place k) [
  | inl lt ↦ ground (
    arith,
    testbit-bit_and k value (complement 32 (get_raw_bits m)),
    testbit-complement 32 k (get_raw_bits m) (get_raw_bits-lt m) lt,
  )
  | inr le ↦ ground (
    arith,
    testbit-bit_and k value (complement 32 (get_raw_bits m)),
    testbit_high 32 k value h le,
  )
]
  where
    place : (k : ℕ) → (k < 32) ⊎ (32 ≤ k)
    place k = omega arith

Covers-old-masked :
    (value m : ℕ) → value < 2 ^ 32 → Covers value (bit_and value (complement 32 (get_raw_bits m)))
Covers-old-masked value m h k e = ground (arith, testbit-masked value m k h)

-- `remove` puts no bit in.
pub Covers-remove :
    (registered : List ℕ) (value m : ℕ) → value < 2 ^ 32 → Covers value (remove registered value m)
unfolding remove
Covers-remove registered value m lt =
    Covers-old-restore value m registered (bit_and value (complement 32 (get_raw_bits m)))
      (Covers-old-masked value m lt)

-- The own bit of the modifier that is removed is off.
pub testbit-own_bit-remove :
    (registered : List ℕ) (value m : ℕ)
    → value < 2 ^ 32
    → get_raw_bits m ≢ 0
    → testbit (own_bit m) (remove registered value m) ≡ false
unfolding remove
testbit-own_bit-remove registered value m lt h =
    testbit-own_bit-restore value m registered (bit_and value (complement 32 (get_raw_bits m))) h
      (ground (arith, testbit-masked value m (own_bit m) lt, testbit-own_bit m m h))

-- `remove` switches off the modifier that it is given.
pub is_on-remove_self :
    (registered : List ℕ) (value m : ℕ)
    → value < 2 ^ 32
    → get_raw_bits m ≢ 0
    → is_on (remove registered value m) m ≡ false
is_on-remove_self registered value m lt h =
    elim (Bool-cases (is_on (remove registered value m) m)) [
      | inr e ↦ e
      | inl e ↦ ground (
        arith,
        is_on-own_bit (remove registered value m) m h e,
        testbit-own_bit-remove registered value m lt h,
      )
    ]

-- For modifiers with raw bits and a 32-bit word, `remove` of a modifier switches that modifier off,
-- registered or not, and leaves every other registered one as it was: left and right keys of a kind
-- share a bit, and removing one of them does not take it from the other.
pub is_on-remove :
    (registered : List ℕ) (value m f : ℕ)
    → value < 2 ^ 32
    → get_raw_bits m ≢ 0
    → get_raw_bits f ≢ 0
    → (f ≡ m) ⊎ (is_include registered f ≡ true)
    → is_on (remove registered value m) f ≡ (is_on value f && not (f == m))
unfolding remove
is_on-remove registered value m f lt hm hf i = elim (Bool-cases (f == m)) [
  | inl e ↦ ground (arith, (==_iff f m).0 e, is_on-remove_self registered value m lt hm)
  | inr ne ↦
      rw ne
        (Bool-ext _ _ (λ e. ground (arith, after e)) (λ e. before (other ne i) (ground arith) ne))
]
  where
    masked : ℕ
    masked = bit_and value (complement 32 (get_raw_bits m))

    after : is_on (remove registered value m) f ≡ true → is_on value f ≡ true
    after e = (is_on-Covers value f hf).1 (λ k b.
        Covers-old-restore value m registered masked (Covers-old-masked value m lt) k
          ((is_on-Covers _ f hf).0 e k b))

    other :
        (f == m) ≡ false
        → (f ≡ m) ⊎ (is_include registered f ≡ true)
        → is_include registered f ≡ true
    other ne (inl e) = ground arith
    other ne (inr i) = i

    before :
        is_include registered f ≡ true
        → is_on value f ≡ true
        → (f == m) ≡ false
        → is_on (remove registered value m) f ≡ true
    before i on ne = (is_on-Covers _ f hf).1 (Covers-restored value m registered masked f i ne on)
