-- ===== src/Flags/Consistent.antt =====
-- Words of flags in which the bits that a left and a right key share are set whenever the own bit of
-- one of them is. `add` and `remove` of `Flags` (core/kext/KeyCode.hpp and KeyCode.cpp) lead to no
-- others, and on these words they do to `isOn` what their names say.
use karabiner_cn.Base.{
  ℕ, ◌^◌, ◌<◌, ◌≡◌, ap, sym, ◌∙◌, ◌≢◌, inl, inr, true, ◌||◌, List, arith, ◌==◌, ==_iff, Bool-cases,
  Bool-ext, bit_or, is_include,
}
use karabiner_cn.Base.Bits.{testbit, testbit-zero, testbit-bit_or, bit_or-lt, bit_and_le_left}
use karabiner_cn.ModifierFlag.{get_raw_bits}
use karabiner_cn.Flags.{add, is_on, remove}
use karabiner_cn.Flags.OwnBit.{own_bit, testbit-own_bit, get_raw_bits-lt}
use karabiner_cn.Flags.Laws.{
  is_on-Covers, is_on-own_bit, Covers-bit_or_left, Covers-bit_or_right, Covers-remove,
  testbit-own_bit-remove, mask_of_Covers, is_on-remove,
}

-- A word of 32 bits in which every registered modifier whose own bit is set is on.
pub record IsConsistent (registered : List ℕ) (value : ℕ) : Type 0 where
  pub bounded : value < 2 ^ 32
  pub whole :
      (f : ℕ)
      → get_raw_bits f ≢ 0
      → is_include registered f ≡ true
      → testbit (own_bit f) value ≡ true
      → is_on value f ≡ true

module _ (registered : List ℕ) where
  pub zero-IsConsistent : IsConsistent registered 0
  zero-IsConsistent = record {
    bounded = omega arith;
    whole = λ f h i e. ground (arith, testbit-zero (own_bit f));
  }

  -- `add` switches one modifier on.
  pub is_on-add :
      (value m f : ℕ)
      → IsConsistent registered value
      → get_raw_bits f ≢ 0
      → is_include registered f ≡ true
      → is_on (add value m) f ≡ (is_on value f || (f == m))
  unfolding add
  is_on-add value m f c hf i = Bool-ext _ _ forwards backwards
    where
      forwards : is_on (bit_or value (get_raw_bits m)) f ≡ true → (is_on value f || (f == m)) ≡ true
      forwards e = ground (
        arith,
        is_on-own_bit (bit_or value (get_raw_bits m)) f hf e,
        testbit-bit_or (own_bit f) value (get_raw_bits m),
        testbit-own_bit f m hf,
        c.whole f hf i,
      )

      backwards :
          (is_on value f || (f == m)) ≡ true → is_on (bit_or value (get_raw_bits m)) f ≡ true
      backwards e = elim (Bool-cases (is_on value f)) [
        | inl on ↦ (is_on-Covers _ f hf).1 (
            Covers-bit_or_left value (get_raw_bits m) (get_raw_bits f)
              ((is_on-Covers value f hf).0 on))
        | inr off ↦
            let same : f ≡ m = ground arith in
            (is_on-Covers _ f hf).1 (λ k b.
              Covers-bit_or_right value (get_raw_bits m) k
                (ap (λ x. testbit k (get_raw_bits x)) (sym same) ∙ b))
      ]

  pub add-IsConsistent :
      (value m : ℕ) → IsConsistent registered value → IsConsistent registered (add value m)
  unfolding add
  add-IsConsistent value m c = record {
    bounded = bit_or-lt 32 value (get_raw_bits m) c.bounded (get_raw_bits-lt m);
    whole = λ f h i e. ground (
      arith,
      is_on-add value m f c h i,
      testbit-bit_or (own_bit f) value (get_raw_bits m),
      testbit-own_bit f m h,
      c.whole f h i,
    );
  }

  pub remove-IsConsistent :
      (value m : ℕ)
      → IsConsistent registered value
      → get_raw_bits m ≢ 0
      → IsConsistent registered (remove registered value m)
  remove-IsConsistent value m c hm = record {
    bounded =
        let below = bit_and_le_left value (remove registered value m) in
        omega (
          arith,
          below,
          mask_of_Covers value _ (Covers-remove registered value m c.bounded),
          c.bounded,
        );
    whole = λ f h i e. ground (
      arith,
      is_on-remove registered value m f c.bounded hm h (inr i),
      c.whole f h i (Covers-remove registered value m c.bounded (own_bit f) e),
      ==_iff f m,
      testbit-own_bit-remove registered value m c.bounded hm,
    );
  }
