-- ===== src/Base/Bits/Step.antt =====
-- One equation for the lowest digit of `bit_and` and `bit_or`, from the digit recursion with fuel
-- that the native operations stand for.
use Prim.Native.Nat.{
  ℕ, zero, suc, ◌+◌, ◌-◌, ◌*◌, ◌/◌, ◌%◌, ◌≤◌, min, max, digits, bitwise, bit_and, bit_or,
  bit_and-bitwise, bit_or-bitwise,
}
use mathlib.Core.Path.{◌≡◌, refl, ap, ◌∙◌}
use native.Mathlib.Omega.{arith}

module _ (rest : ℕ → ℕ) (op : ℕ → ℕ → ℕ) where
  -- A number has at most as many digits as it counts, so one more turn changes nothing.
  one_more : (fuel x y : ℕ) → x ≤ fuel → digits rest op (suc fuel) x y ≡ digits rest op fuel x y
  one_more zero (suc x) y le = absurd (omega arith)
  one_more zero zero y le = refl
  one_more (suc fuel) zero y le = refl
  one_more (suc fuel) (suc x) y le = rw (one_more fuel (suc x / 2) (y / 2) (omega arith))

  many_more : (extra x y : ℕ) → digits rest op (extra + x) x y ≡ digits rest op x x y
  many_more zero x y = let e : 0 + x ≡ x = omega arith in ap (λ n. digits rest op n x y) e
  many_more (suc extra) x y =
      let e : suc extra + x ≡ suc (extra + x) = omega arith in
      ap (λ n. digits rest op n x y) e
      ∙ one_more (extra + x) x y (omega arith)
      ∙ many_more extra x y

  lowest_digit :
      (x y : ℕ)
      → bitwise rest op (suc x) y ≡ op (suc x % 2) (y % 2) + 2 * bitwise rest op (suc x / 2) (y / 2)
  lowest_digit x y =
      let e : x ≡ (x - suc x / 2) + suc x / 2 = omega arith in
      let enough =
        ap (λ n. digits rest op n (suc x / 2) (y / 2)) e
        ∙ many_more (x - suc x / 2) (suc x / 2) (y / 2) in
      omega (arith, enough)

pub bit_and_lowest : (x y : ℕ) → bit_and x y ≡ min (x % 2) (y % 2) + 2 * bit_and (x / 2) (y / 2)
bit_and_lowest (suc x) y = simp bit_and-bitwise (lowest_digit (λ _. 0) min x y)
bit_and_lowest zero y = simp bit_and-bitwise (omega arith)

pub bit_or_lowest : (x y : ℕ) → bit_or x y ≡ max (x % 2) (y % 2) + 2 * bit_or (x / 2) (y / 2)
bit_or_lowest (suc x) y = simp bit_or-bitwise (lowest_digit (λ d. d) max x y)
bit_or_lowest zero y = simp bit_or-bitwise (omega arith)
