-- ===== src/Base/Bits.antt =====
-- Binary digits: the native `bit_and` and `bit_or` read one digit at a time, so that a law about
-- words is a law about truth values at each place.
mod Step
use Step.{bit_or_lowest, bit_and_lowest}
use Prim.Native.Nat.{ℕ, zero, suc, ◌+◌, ◌-◌, ◌*◌, ◌/◌, ◌%◌, ◌^◌, ◌≤◌, ◌<◌, bit_and, bit_or}
use mathlib.Core.Path.{◌≡◌, refl, ap, ◌∙◌}
use mathlib.Core.Bool.{Bool, true, false, not, ◌&&◌, ◌||◌}
use native.Mathlib.Nat.{pow-suc, one-le-pow}
use native.Mathlib.Omega.{arith}
use karabiner_cn.Base.Tests.{◌==◌, ltb}

-- The digit of `a` at place `k`.
unfoldable pub testbit : ℕ → ℕ → Bool
testbit zero a = a % 2 == 1
testbit (suc k) a = testbit k (a / 2)

pub testbit-bit_or : (k a b : ℕ) → testbit k (bit_or a b) ≡ (testbit k a || testbit k b)
unfolding testbit
testbit-bit_or zero a b = ground (arith, bit_or_lowest a b)
testbit-bit_or (suc k) a b =
    let e : bit_or a b / 2 ≡ bit_or (a / 2) (b / 2) = omega (arith, bit_or_lowest a b) in
    ap (testbit k) e ∙ testbit-bit_or k (a / 2) (b / 2)

pub testbit-bit_and : (k a b : ℕ) → testbit k (bit_and a b) ≡ (testbit k a && testbit k b)
unfolding testbit
testbit-bit_and zero a b = ground (arith, bit_and_lowest a b)
testbit-bit_and (suc k) a b =
    let e : bit_and a b / 2 ≡ bit_and (a / 2) (b / 2) = omega (arith, bit_and_lowest a b) in
    ap (testbit k) e ∙ testbit-bit_and k (a / 2) (b / 2)

pub testbit-zero : (k : ℕ) → testbit k 0 ≡ false
unfolding testbit
testbit-zero zero = refl
testbit-zero (suc k) = testbit-zero k

-- A number below `2 ^ k` has no digit at `k` or above.
pub testbit_high : (w k a : ℕ) → a < 2 ^ w → w ≤ k → testbit k a ≡ false
unfolding testbit
testbit_high zero k a h le = let e : a ≡ 0 = omega arith in rw e (testbit-zero k)
testbit_high (suc w) zero a h le = absurd (omega arith)
testbit_high (suc w) (suc k) a h le =
    testbit_high w k (a / 2) (omega (arith, pow-suc 2 w)) (omega arith)

-- `~a` of a word of `w` bits.
abbrev pub complement : ℕ → ℕ → ℕ
complement w a = 2 ^ w - 1 - a

pub testbit-complement :
    (w k a : ℕ) → a < 2 ^ w → k < w → testbit k (complement w a) ≡ not (testbit k a)
unfolding testbit
testbit-complement zero k a h lt = absurd (omega arith)
testbit-complement (suc w) zero a h lt = ground (arith, pow-suc 2 w, one-le-pow w 2)
testbit-complement (suc w) (suc k) a h lt =
    let e : complement (suc w) a / 2 ≡ complement w (a / 2) =
      omega (arith, pow-suc 2 w, one-le-pow w 2) in
    ap (testbit k) e ∙ testbit-complement w k (a / 2) (omega (arith, pow-suc 2 w)) (omega arith)

-- Numbers with the same digits are equal.
pub eq_of_testbit_fuel : (n a b : ℕ) → a ≤ n → b ≤ n → ((k : ℕ) → testbit k a ≡ testbit k b) → a ≡ b
unfolding testbit
eq_of_testbit_fuel zero a b p q h = omega arith
eq_of_testbit_fuel (suc n) a b p q h =
    ground (
      arith,
      h 0,
      eq_of_testbit_fuel n (a / 2) (b / 2) (omega arith) (omega arith) (λ k. h (suc k)),
    )

pub eq_of_testbit : (a b : ℕ) → ((k : ℕ) → testbit k a ≡ testbit k b) → a ≡ b
eq_of_testbit a b h = eq_of_testbit_fuel (a + b) a b (omega arith) (omega arith) h

bit_and_le_fuel : (n a b : ℕ) → a ≤ n → bit_and a b ≤ a
bit_and_le_fuel zero a b h =
    let e : bit_and a b ≡ 0 = eq_of_testbit _ _ (λ k.
      let z : a ≡ 0 = omega arith in
      ground (arith, testbit-bit_and k a b, testbit-zero k, ap (testbit k) z)) in
    omega (arith, e)
bit_and_le_fuel (suc n) a b h =
    ground (arith, bit_and_lowest a b, bit_and_le_fuel n (a / 2) (b / 2) (omega arith))

-- `a & b` has no bit that `a` lacks.
pub bit_and_le_left : (a b : ℕ) → bit_and a b ≤ a
bit_and_le_left a b = bit_and_le_fuel a a b (omega arith)

pub bit_and_comm : (a b : ℕ) → bit_and a b ≡ bit_and b a
bit_and_comm a b =
    eq_of_testbit _ _ (λ k. ground (arith, testbit-bit_and k a b, testbit-bit_and k b a))

-- A word keeps its width under `|`.
pub bit_or-lt : (w a b : ℕ) → a < 2 ^ w → b < 2 ^ w → bit_or a b < 2 ^ w
bit_or-lt zero a b ha hb =
    let e : bit_or a b ≡ 0 = eq_of_testbit _ _ (λ k.
      let za : a ≡ 0 = omega arith in
      let zb : b ≡ 0 = omega arith in
      ground (arith, testbit-bit_or k a b, testbit-zero k, ap (testbit k) za, ap (testbit k) zb)) in
    omega (arith, e)
bit_or-lt (suc w) a b ha hb = omega (
  arith,
  bit_or_lowest a b,
  pow-suc 2 w,
  bit_or-lt w (a / 2) (b / 2) (omega (arith, pow-suc 2 w)) (omega (arith, pow-suc 2 w)),
)
