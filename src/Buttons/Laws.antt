-- ===== src/Buttons/Laws.antt =====
-- The sets that `justPressed` and `justReleased` of `Buttons` (core/kext/KeyCode.hpp) stand for.
use karabiner_cn.Base.{ℕ, ◌≡◌, ◌<◌, ◌≤◌, ◌^◌, true, not, ◌&&◌, arith, bit_and, ◌⊎◌, inl, inr, ◌↔◌}
use karabiner_cn.Base.Bits.{
  testbit, testbit-bit_or, testbit-bit_and, testbit-complement, testbit_high, complement,
  eq_of_testbit, bit_and_le_left, bit_and_comm,
}
use karabiner_cn.Flags.Laws.{Covers, Covers-of_mask, mask_of_Covers}
use karabiner_cn.Buttons.{add, remove, is_on, just_pressed, just_released}
use karabiner_cn.Base.{==_iff}

-- A digit of `a & ~b`, for words of 32 bits.
pub testbit-minus :
    (k a b : ℕ)
    → a < 2 ^ 32
    → b < 2 ^ 32
    → testbit k (bit_and a (complement 32 b)) ≡ (testbit k a && not (testbit k b))
testbit-minus k a b ha hb =
    let split : (k < 32) ⊎ (32 ≤ k) = omega arith in
    elim split [
      | inl low ↦
          ground (arith, testbit-bit_and k a (complement 32 b), testbit-complement 32 k b hb low)
      | inr high ↦
          ground (arith, testbit-bit_and k a (complement 32 b), testbit_high 32 k a ha high)
    ]

-- A digit of `~a & b`.
pub testbit-minus_left :
    (k a b : ℕ)
    → a < 2 ^ 32
    → b < 2 ^ 32
    → testbit k (bit_and (complement 32 a) b) ≡ (not (testbit k a) && testbit k b)
testbit-minus_left k a b ha hb =
    let split : (k < 32) ⊎ (32 ≤ k) = omega arith in
    elim split [
      | inl low ↦
          ground (arith, testbit-bit_and k (complement 32 a) b, testbit-complement 32 k a ha low)
      | inr high ↦
          ground (arith, testbit-bit_and k (complement 32 a) b, testbit_high 32 k b hb high)
    ]

pub is_on-Covers : (value buttons : ℕ) → (is_on value buttons ≡ true) ↔ Covers value buttons
unfolding is_on
is_on-Covers value buttons = (
  (λ e. Covers-of_mask value buttons ((==_iff _ _).0 e)),
  (λ c. (==_iff _ _).1 (mask_of_Covers value buttons c)),
)

-- For two words of 32 bits, taking the just released buttons away from the previous ones and adding
-- the just pressed ones gives the current ones.
pub add-remove-just_pressed :
    (value previous : ℕ)
    → value < 2 ^ 32
    → previous < 2 ^ 32
    → add (remove previous (just_released value previous)) (just_pressed value previous) ≡ value
unfolding add remove just_pressed just_released
add-remove-just_pressed value previous hv hp =
    let released = bit_and (complement 32 value) previous in
    let bound : released < 2 ^ 32 = omega (
      arith,
      bit_and_le_left previous (complement 32 value),
      bit_and_comm previous (complement 32 value),
    ) in
    eq_of_testbit _ _ λ k. ground (
      arith,
      testbit-bit_or k (bit_and previous (complement 32 released))
          (bit_and value (complement 32 previous)),
      testbit-minus k previous released hp bound,
      testbit-minus k value previous hv hp,
      testbit-minus_left k value previous hv hp,
    )
