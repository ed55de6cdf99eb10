-- ===== src/EventInputQueue/Pointer/Laws.antt =====
-- The events that a pointing device's event is divided into (core/kext/Classes/EventInputQueue.cpp)
-- tell the whole change of the buttons.
use karabiner_cn.Base.{
  ℕ, zero, suc, ◌+◌, ◌/◌, ◌^◌, ◌≤◌, ◌<◌, ◌≡◌, refl, sym, ap, ◌∙◌, ◌⊎◌, inl, inr, Bool, true, false,
  not, ◌&&◌, ◌||◌, List, [], ◌∷◌, ◌++◌, arith, ◌==◌, ==_iff, ==_refl, ltb, leb, if◌then◌else◌,
  Bool-ext,
}
use karabiner_cn.Base.Bits.{
  testbit, testbit-zero, testbit-bit_or, testbit-bit_and, testbit-complement, testbit_high,
  complement, eq_of_testbit,
}
use karabiner_cn.Base.Int.{ℤ, pos, eqb_ℤ}
use karabiner_cn.Buttons
use karabiner_cn.Buttons.Laws.{is_on-Covers, testbit-minus, testbit-minus_left}
use karabiner_cn.Params.{ParamsBase, relative_pointer}
use karabiner_cn.EventInputQueue.Pointer.{
  Enqueued, pointer_params, button_events, all_button_events, push_relative_pointer,
}
use native.Mathlib.Nat.{pow-suc, one-le-pow, pow-le-pow_right}

testbit-pow : (k i : ℕ) → testbit k (2 ^ i) ≡ (k == i)
unfolding testbit
testbit-pow zero zero = refl
testbit-pow zero (suc i) = ground (arith, pow-suc 2 i)
testbit-pow (suc k) zero = testbit-zero k ∙ ground arith
testbit-pow (suc k) (suc i) =
    let e : 2 ^ suc i / 2 ≡ 2 ^ i = omega (arith, pow-suc 2 i) in
    ap (testbit k) e ∙ testbit-pow k i ∙ ground arith

is_on-pow : (value i : ℕ) → Buttons.is_on value (2 ^ i) ≡ testbit i value
is_on-pow value i =
    Bool-ext _ _ (λ e. (is_on-Covers value (2 ^ i)).0 e i (testbit-pow i i ∙ ==_refl i))
      (λ e.
        (is_on-Covers value (2 ^ i)).1
          (λ k b. ground (arith, testbit-pow k i, (==_iff k i).0, ap (λ j. testbit j value))))

-- The buttons that are held after an event, by what was held before it.
unfoldable pub apply_params : ℕ → ParamsBase → ℕ
unfolding Buttons.add Buttons.remove
apply_params held (relative_pointer p) =
    if p.ex_button == Buttons.none
    then held
    else if p.ex_isbuttondown
    then Buttons.add held p.ex_button
    else Buttons.remove held p.ex_button
apply_params held p = held

unfoldable pub replay : ℕ → List Enqueued → ℕ
unfolding apply_params
replay held [] = held
replay held (x ∷ xs) = replay (apply_params held x.params) xs

replay-append :
    (held : ℕ) (xs ys : List Enqueued) → replay held (xs ++ ys) ≡ replay (replay held xs) ys
unfolding replay
replay-append held [] ys = refl
replay-append held (x ∷ xs) ys = replay-append (apply_params held x.params) xs ys

testbit-add : (k i held : ℕ) → testbit k (Buttons.add held (2 ^ i)) ≡ (testbit k held || (k == i))
unfolding Buttons.add
testbit-add k i held = ground (arith, testbit-bit_or k held (2 ^ i), testbit-pow k i)

pow_bound : (i : ℕ) → i < 32 → 2 ^ i < 2 ^ 32
pow_bound i h =
    let le : 2 ^ i ≤ 2 ^ 31 = pow-le-pow_right (omega arith) {i = i} {j = 31} (omega arith) in
    omega (arith, le)

testbit-remove :
    (k i held : ℕ)
    → k < 32
    → i < 32
    → testbit k (Buttons.remove held (2 ^ i)) ≡ (testbit k held && not (k == i))
unfolding Buttons.remove
testbit-remove k i held hk hi = ground (
  arith,
  testbit-bit_and k held (complement 32 (2 ^ i)),
  testbit-complement 32 k (2 ^ i) (pow_bound i hi) hk,
  testbit-pow k i,
)

pow_nonzero : (i : ℕ) → (2 ^ i == 0) ≡ false
pow_nonzero i = ground (arith, one-le-pow i 2)

abbrev one_event : ℕ → ℕ → Bool → Bool → List Enqueued
one_event buttons i is_down lazy =
    record { params = pointer_params buttons (pos 0) (pos 0) (2 ^ i) is_down; retain = lazy } ∷ []

replay-down :
    (b : Bool) (held buttons i : ℕ) (lazy : Bool)
    → replay held (if b then one_event buttons i true lazy else [])
      ≡ (if b then Buttons.add held (2 ^ i) else held)
unfolding replay apply_params
replay-down true held buttons i lazy = rw (pow_nonzero i)
replay-down false held buttons i lazy = refl

replay-up :
    (b : Bool) (held buttons i : ℕ) (lazy : Bool)
    → replay held (if b then one_event buttons i false lazy else [])
      ≡ (if b then Buttons.remove held (2 ^ i) else held)
unfolding replay apply_params
replay-up true held buttons i lazy = rw (pow_nonzero i)
replay-up false held buttons i lazy = refl

replay-button_events :
    (i held buttons jp jr : ℕ) (lazy : Bool)
    → let pressed = if testbit i jp then Buttons.add held (2 ^ i) else held in
      replay held (button_events lazy buttons jp jr i)
      ≡ (if testbit i jr then Buttons.remove pressed (2 ^ i) else pressed)
unfolding button_events
replay-button_events i held buttons jp jr lazy =
    rw (is_on-pow jp i, is_on-pow jr i)
      (replay-append held _ (if testbit i jr then one_event buttons i false lazy else [])
        ∙ replay-up (testbit i jr) _ buttons i lazy
        ∙ ap (λ h. if testbit i jr then Buttons.remove h (2 ^ i) else h)
            (replay-down (testbit i jp) held buttons i lazy))

-- A digit of the held buttons behind the turns for its place.
abbrev changed : Bool → Bool → Bool → Bool
changed pressed released held = if released then false else pressed || held

testbit-turn :
    (a b : Bool) (k i held : ℕ)
    → k < 32
    → i < 32
    → let pressed = if a then Buttons.add held (2 ^ i) else held in
      testbit k (if b then Buttons.remove pressed (2 ^ i) else pressed)
      ≡ (if k == i then changed a b (testbit k held) else testbit k held)
testbit-turn true true k i held hk hi =
    ground (arith, testbit-remove k i (Buttons.add held (2 ^ i)) hk hi, testbit-add k i held)
testbit-turn true false k i held hk hi = ground (arith, testbit-add k i held)
testbit-turn false true k i held hk hi = ground (arith, testbit-remove k i held hk hi)
testbit-turn false false k i held hk hi = ground arith

testbit-button_events :
    (k i held buttons jp jr : ℕ) (lazy : Bool)
    → k < 32
    → i < 32
    → testbit k (replay held (button_events lazy buttons jp jr i))
      ≡ (if k == i then changed (testbit i jp) (testbit i jr) (testbit k held) else testbit k held)
testbit-button_events k i held buttons jp jr lazy hk hi =
    ap (testbit k) (replay-button_events i held buttons jp jr lazy)
    ∙ testbit-turn (testbit i jp) (testbit i jr) k i held hk hi

abbrev in_places : ℕ → ℕ → ℕ → Bool
in_places k i n = leb i k && ltb k (i + n)

testbit-all :
    (n k i held buttons jp jr : ℕ) (lazy : Bool)
    → k < 32
    → i + n ≤ 32
    → testbit k (replay held (all_button_events lazy buttons jp jr i n)) ≡ (
        if in_places k i n
        then changed (testbit k jp) (testbit k jr) (testbit k held)
        else testbit k held)
unfolding all_button_events replay
testbit-all zero k i held buttons jp jr lazy hk h = ground arith
testbit-all (suc n) k i held buttons jp jr lazy hk h =
    ap (testbit k) (replay-append held (button_events lazy buttons jp jr i) _)
    ∙ testbit-all n k (suc i) _ buttons jp jr lazy hk (omega arith)
    ∙ ground (
      arith,
      testbit-button_events k i held buttons jp jr lazy hk (omega arith),
      ap (λ j. testbit j jp),
      ap (λ j. testbit j jr),
    )

testbit_high-turn :
    (a b : Bool) (k i held : ℕ)
    → 32 ≤ k
    → i < 32
    → testbit k held ≡ false
    → let pressed = if a then Buttons.add held (2 ^ i) else held in
      testbit k (if b then Buttons.remove pressed (2 ^ i) else pressed) ≡ false
unfolding Buttons.remove
testbit_high-turn true true k i held hk hi e = ground (
  arith,
  testbit-add k i held,
  testbit-bit_and k (Buttons.add held (2 ^ i)) (complement 32 (2 ^ i)),
)
testbit_high-turn true false k i held hk hi e = ground (arith, testbit-add k i held)
testbit_high-turn false true k i held hk hi e =
    ground (arith, testbit-bit_and k held (complement 32 (2 ^ i)))
testbit_high-turn false false k i held hk hi e = e

testbit_high-all :
    (n k i held buttons jp jr : ℕ) (lazy : Bool)
    → 32 ≤ k
    → i + n ≤ 32
    → testbit k held ≡ false
    → testbit k (replay held (all_button_events lazy buttons jp jr i n)) ≡ false
unfolding all_button_events replay
testbit_high-all zero k i held buttons jp jr lazy hk h e = e
testbit_high-all (suc n) k i held buttons jp jr lazy hk h e =
    ap (testbit k) (replay-append held (button_events lazy buttons jp jr i) _)
    ∙ testbit_high-all n k (suc i) _ buttons jp jr lazy hk (omega arith) (
        ap (testbit k) (replay-button_events i held buttons jp jr lazy)
        ∙ testbit_high-turn (testbit i jp) (testbit i jr) k i held hk (omega arith) e)

replay-move :
    (moved : Bool) (held buttons : ℕ) (dx dy : ℤ)
    → replay held (
        if moved
        then record { params = pointer_params buttons dx dy Buttons.none false; retain = true } ∷ []
        else [])
      ≡ held
unfolding replay apply_params
replay-move true held buttons dx dy = refl
replay-move false held buttons dx dy = refl

-- For 32-bit words of buttons, going through what is enqueued for an event of a pointing device, a
-- button being held from its down event to its up event, leads from the previous buttons of the
-- device to its current ones.
pub replay-push_relative_pointer :
    (lazy : Bool) (previous buttons : ℕ) (dx dy : ℤ)
    → previous < 2 ^ 32
    → buttons < 2 ^ 32
    → replay previous (push_relative_pointer lazy previous buttons dx dy) ≡ buttons
unfolding push_relative_pointer Buttons.just_pressed Buttons.just_released
replay-push_relative_pointer lazy previous buttons dx dy hp hb =
    replay-append previous _ _
    ∙ replay-move (not (eqb_ℤ dx (pos 0)) || not (eqb_ℤ dy (pos 0))) _ buttons dx dy
    ∙ eq_of_testbit _ _ same
  where
    jp : ℕ
    jp = Buttons.just_pressed buttons previous

    jr : ℕ
    jr = Buttons.just_released buttons previous

    same :
        (k : ℕ)
        → testbit k (replay previous (all_button_events lazy buttons jp jr 0 32))
          ≡ testbit k buttons
    same k =
        let split : (k < 32) ⊎ (32 ≤ k) = omega arith in
        elim split [
          | inl low ↦
              testbit-all 32 k 0 previous buttons jp jr lazy low (omega arith)
              ∙ ground (
                arith,
                testbit-minus k buttons previous hb hp,
                testbit-minus_left k buttons previous hb hp,
              )
          | inr high ↦
              testbit_high-all 32 k 0 previous buttons jp jr lazy high (omega arith)
                (testbit_high 32 k previous hp high)
              ∙ sym (testbit_high 32 k buttons hb high)
        ]
