-- ===== src/DeltaBuffer/Window.antt =====
-- A `DeltaBuffer` (core/kext/Classes/DeltaBuffer.hpp) against the list of all moves since the device
-- last turned.
use karabiner_cn.Base.{
  ℕ, Bool, zero, suc, ◌≡◌, refl, ap, ◌∙◌, List, [], ◌∷◌, length, if◌then◌else◌, ltb, leb, arith,
  Bool-cases, inl, inr,
}
use karabiner_cn.Base.Int.{ℤ, pos, negsuc, is_pos, ◌+ℤ◌, ◌*ℤ◌, ltb_ℤ}
use karabiner_cn.DeltaBuffer
use karabiner_cn.DeltaBuffer.{DeltaBuffer, is_neg, turns, cleared, shift_in, push, is_full}

-- The direction of the last move that has one.
unfoldable pub direction : List ℤ → ℤ
direction [] = pos 0
direction (x ∷ xs) = if is_neg x then negsuc 0 else if is_pos x then pos 1 else direction xs

-- A move turns if its product with the last direction is negative.
abbrev pub is_against : ℤ → ℤ → Bool
is_against x d = ltb_ℤ (x *ℤ d) (pos 0)

-- All moves since the last turn, the latest one first.
unfoldable pub extend : ℤ → List ℤ → List ℤ
extend x xs = if is_against x (direction xs) then x ∷ [] else x ∷ xs

unfoldable pub moves : List ℤ → List ℤ → List ℤ
moves [] xs = xs
moves (y ∷ ys) xs = moves ys (extend y xs)

unfoldable pub push_all : List ℤ → DeltaBuffer → DeltaBuffer
push_all [] b = b
push_all (y ∷ ys) b = push_all ys (push y b)

-- The move of an index, or 0 behind the end.
abbrev pub move_at : List ℤ → ℕ → ℤ
move_at [] i = pos 0
move_at (x ∷ xs) zero = x
move_at (x ∷ xs) (suc i) = move_at xs i

-- The buffer holds the latest five moves of a list, its length up to five, and its direction.
pub record Holds (b : DeltaBuffer) (xs : List ℤ) : Type 0 where
  pub entry4 : b.buffer4 ≡ move_at xs 0
  pub entry3 : b.buffer3 ≡ move_at xs 1
  pub entry2 : b.buffer2 ≡ move_at xs 2
  pub entry1 : b.buffer1 ≡ move_at xs 3
  pub entry0 : b.buffer0 ≡ move_at xs 4
  pub counted : b.count ≡ (if ltb (length xs) 5 then length xs else 5)
  pub directed : b.sign ≡ direction xs

cleared-Holds : Holds cleared []
unfolding cleared direction
cleared-Holds = record {
  entry4 = refl;
  entry3 = refl;
  entry2 = refl;
  entry1 = refl;
  entry0 = refl;
  counted = refl;
  directed = refl;
}

shift_in-Holds :
    (x : ℤ) (b : DeltaBuffer) (xs : List ℤ) → Holds b xs → Holds (shift_in x b) (x ∷ xs)
unfolding shift_in direction
shift_in-Holds x b xs h = record {
  entry4 = refl;
  entry3 = h.entry4;
  entry2 = h.entry3;
  entry1 = h.entry2;
  entry0 = h.entry1;
  counted = ground (arith, h.counted);
  directed = ap (λ s. if is_neg x then negsuc 0 else if is_pos x then pos 1 else s) h.directed;
}

-- The test of the source is that of the product.
turns-product : (x d : ℤ) → turns x d ≡ is_against x d
unfolding ◌*ℤ◌
turns-product (pos zero) (pos n) = ground arith
turns-product (pos zero) (negsuc n) = ground arith
turns-product (pos (suc k)) (pos n) = ground arith
turns-product (pos (suc k)) (negsuc n) = ground arith
turns-product (negsuc k) (pos zero) = ground arith
turns-product (negsuc k) (pos (suc n)) = ground arith
turns-product (negsuc k) (negsuc n) = ground arith

push-Holds : (x : ℤ) (b : DeltaBuffer) (xs : List ℤ) → Holds b xs → Holds (push x b) (extend x xs)
unfolding push extend
push-Holds x b xs h =
    let same : turns x b.sign ≡ is_against x (direction xs) =
      ap (turns x) h.directed ∙ turns-product x (direction xs) in
    elim (Bool-cases (is_against x (direction xs))) [
      | inl t ↦ rw (same ∙ t, t) (shift_in-Holds x cleared [] cleared-Holds)
      | inr t ↦ rw (same ∙ t, t) (shift_in-Holds x b xs h)
    ]

push_all-Holds :
    (ys : List ℤ) (b : DeltaBuffer) (xs : List ℤ) → Holds b xs → Holds (push_all ys b) (moves ys xs)
unfolding push_all moves
push_all-Holds [] b xs h = h
push_all-Holds (y ∷ ys) b xs h = push_all-Holds ys (push y b) (extend y xs) (push-Holds y b xs h)

-- After `clear` and any pushes the buffer holds the latest five moves from the last one on whose
-- product with the sign of the last move before it that was not 0 is negative, or from the first move
-- if there is none such, with 0 for those that are missing. It is full exactly when there are at least
-- five of these moves, and its sum is that of the latest five.
pub push_all_lem :
    (ys : List ℤ)
    → let b = push_all ys cleared in
      let xs = moves ys [] in
      Holds b xs
      × (is_full b ≡ leb 5 (length xs))
      × (DeltaBuffer.sum b
          ≡ pos 0 +ℤ move_at xs 4 +ℤ move_at xs 3 +ℤ move_at xs 2 +ℤ move_at xs 1 +ℤ move_at xs 0)
unfolding is_full DeltaBuffer.sum
push_all_lem ys =
    let b = push_all ys cleared in
    let xs = moves ys [] in
    let h = push_all-Holds ys cleared [] cleared-Holds in
    (h, ground (arith, h.counted), rw (h.entry0, h.entry1, h.entry2, h.entry3, h.entry4) refl)
