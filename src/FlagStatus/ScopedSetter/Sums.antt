-- ===== src/FlagStatus/ScopedSetter/Sums.antt =====
-- Inside the scope of a `ScopedSetter` (core/kext/Classes/FlagStatus.hpp) the sums are those of the
-- other `FlagStatus`.
use karabiner_cn.Base.{
  ℕ, zero, suc, ◌+◌, ◌≡◌, refl, sym, ap, ap₂, ◌∙◌, inl, inr, true, false, List, [], ◌∷◌, ◌++◌, map,
  ◌==◌, ==_iff, ==_refl, arith, Bool-cases, length, replicate, is_include,
}
use karabiner_cn.Base.Int.{ℤ, pos, pos_part, ◌+ℤ◌, ◌-ℤ◌, int_laws, parts_exclusive}
use karabiner_cn.ModifierFlag
use karabiner_cn.StatusMessage.{Board}
use karabiner_cn.FlagStatus.{subtract, subtract_items}
use karabiner_cn.FlagStatus.Counter.{Item, Method, sum}
use karabiner_cn.FlagStatus.ScopedSetter.{enter, count, times, method_each, method_each_lem}
use karabiner_cn.FlagStatus.ScopedSetter.Restore.{
  times_increases_from, times_decreases_from, flag-times,
}
use karabiner_cn.FlagStatus.Invariant.{flags}

-- The two lists have the same modifiers, and no modifier twice.
abbrev pub Matches : List Item → List Item → Type 0
Matches [] [] = Unit
Matches [] (y ∷ ys) = ⊥
Matches (x ∷ xs) [] = ⊥
Matches (x ∷ xs) (y ∷ ys) =
    (x.flag ≡ y.flag) × (is_include (flags xs) x.flag ≡ false) × Matches xs ys

-- Item by item the sums agree, but for caps lock.
abbrev pub SameSums : List Item → List Item → Type 0
SameSums [] [] = Unit
SameSums [] (y ∷ ys) = ⊥
SameSums (x ∷ xs) [] = ⊥
SameSums (x ∷ xs) (y ∷ ys) =
    ((x.flag == ModifierFlag.capslock) ≡ false → sum x true ≡ sum y true) × SameSums xs ys

count-append : (m : ℕ) (xs ys : List ℕ) → count m (xs ++ ys) ≡ count m xs + count m ys
count-append m [] ys = omega arith
count-append m (x ∷ xs) ys = ground (arith, count-append m xs ys)

count-replicate_self : (m n : ℕ) → count m (replicate n m) ≡ n
count-replicate_self m zero = refl
count-replicate_self m (suc n) = ground (arith, count-replicate_self m n)

count-replicate_ne : (m k n : ℕ) → (k == m) ≡ false → count m (replicate n k) ≡ 0
count-replicate_ne m k zero h = refl
count-replicate_ne m k (suc n) h = ground (arith, count-replicate_ne m k n h)

-- The modifiers of a difference are modifiers of the items.
count-subtract_absent :
    (m : ℕ) (xs ys : List Item)
    → is_include (flags xs) m ≡ false
    → count m (subtract_items xs ys) ≡ 0
unfolding subtract_items
count-subtract_absent m [] ys h = refl
count-subtract_absent m (x ∷ xs) [] h = refl
count-subtract_absent m (x ∷ xs) (y ∷ ys) h = ground (
  arith,
  count-append m (replicate (pos_part (sum x true -ℤ sum y true)) x.flag) (subtract_items xs ys),
  count-replicate_ne m x.flag (pos_part (sum x true -ℤ sum y true)),
  count-subtract_absent m xs ys,
)

length-Matches : (xs ys : List Item) → Matches xs ys → length xs ≡ length ys
length-Matches [] [] m = refl
length-Matches [] (y ∷ ys) m = absurd m
length-Matches (x ∷ xs) [] m = absurd m
length-Matches (x ∷ xs) (y ∷ ys) m = ap suc (length-Matches xs ys m.2)

flags-Matches : (xs ys : List Item) → Matches xs ys → flags xs ≡ flags ys
flags-Matches [] [] m = refl
flags-Matches [] (y ∷ ys) m = absurd m
flags-Matches (x ∷ xs) [] m = absurd m
flags-Matches (x ∷ xs) (y ∷ ys) m = ap₂ ◌∷◌ m.0 (flags-Matches xs ys m.2)

-- The sum of an item whose count is changed changes as much.
sum-count :
    (x : Item) (r a : ℕ)
    → sum (record x { count = x.count -ℤ pos a +ℤ pos r }) true ≡ sum x true -ℤ pos a +ℤ pos r
unfolding sum
sum-count x r a = omega int_laws

count-subtract_head :
    (x y : Item) (xs ys : List Item)
    → is_include (flags xs) x.flag ≡ false
    → count x.flag (subtract_items (x ∷ xs) (y ∷ ys)) ≡ pos_part (sum x true -ℤ sum y true)
unfolding subtract_items
count-subtract_head x y xs ys h =
    let n = pos_part (sum x true -ℤ sum y true) in
    count-append x.flag (replicate n x.flag) (subtract_items xs ys)
    ∙ omega (arith, count-replicate_self x.flag n, count-subtract_absent x.flag xs ys h)

count-subtract_tail :
    (m : ℕ) (x y : Item) (xs ys : List Item)
    → (x.flag == m) ≡ false
    → count m (subtract_items (x ∷ xs) (y ∷ ys)) ≡ count m (subtract_items xs ys)
unfolding subtract_items
count-subtract_tail m x y xs ys h =
    let n = pos_part (sum x true -ℤ sum y true) in
    count-append m (replicate n x.flag) (subtract_items xs ys)
    ∙ omega (arith, count-replicate_ne m x.flag n h)

other_flag :
    (m f : ℕ) (xs : List Item)
    → is_include (flags xs) f ≡ false
    → is_include (flags xs) m ≡ true
    → (f == m) ≡ false
other_flag m f xs a p = elim (Bool-cases (f == m)) [
  | inr e ↦ e
  | inl e ↦ let same : f ≡ m = (==_iff f m).0 e in cc
]

module _ (added removed : List ℕ) where
  adjust : Item → Item
  adjust x =
      times (count x.flag removed) Method.increases (times (count x.flag added) Method.decreases x)

  flag-adjust : (x : Item) → (adjust x).flag ≡ x.flag
  unfolding adjust
  flag-adjust x = flag-times _ _ _ ∙ flag-times _ _ x

  adjust_all :
      (xs : List Item)
      → map
          (λ x. times (count x.flag removed) Method.increases x)
          (map (λ x. times (count x.flag added) Method.decreases x) xs)
        ≡ map adjust xs
  unfolding adjust
  adjust_all [] = refl
  adjust_all (x ∷ xs) =
      ap₂ ◌∷◌
        (ap
          (λ f.
            times (count f removed) Method.increases
              (times (count x.flag added) Method.decreases x))
          (flag-times (count x.flag added) Method.decreases x))
        (adjust_all xs)

  -- Counts that are the differences of the two sums close the gap.
  sum-adjust :
      (x y : Item)
      → (x.flag == ModifierFlag.capslock) ≡ false
      → count x.flag added ≡ pos_part (sum x true -ℤ sum y true)
      → count x.flag removed ≡ pos_part (sum y true -ℤ sum x true)
      → sum (adjust x) true ≡ sum y true
  unfolding adjust
  sum-adjust x y n a r =
      rw
        (
          a,
          r,
          times_decreases_from x n (pos_part (sum x true -ℤ sum y true)) x.count,
          times_increases_from x n (pos_part (sum y true -ℤ sum x true))
              (x.count -ℤ pos (pos_part (sum x true -ℤ sum y true))),
        )
        (sum-count x _ _ ∙ closes (sum x true) (sum y true))
    where
      closes : (s t : ℤ) → s -ℤ pos (pos_part (s -ℤ t)) +ℤ pos (pos_part (t -ℤ s)) ≡ t
      closes s t = omega (int_laws, parts_exclusive (s -ℤ t), parts_exclusive (t -ℤ s))

  SameSums-adjust :
      (xs ys : List Item)
      → Matches xs ys
      → ((m : ℕ) → is_include (flags xs) m ≡ true → count m added ≡ count m (subtract_items xs ys))
      → ((m : ℕ)
          → is_include (flags xs) m ≡ true
          → count m removed ≡ count m (subtract_items ys xs))
      → SameSums (map adjust xs) ys
  SameSums-adjust [] [] m a r = tt
  SameSums-adjust [] (y ∷ ys) m a r = absurd m
  SameSums-adjust (x ∷ xs) [] m a r = absurd m
  SameSums-adjust (x ∷ xs) (y ∷ ys) m a r =
      let absent : is_include (flags ys) y.flag ≡ false =
        rw (← m.0, ← flags-Matches xs ys m.2) m.1 in
      let here : is_include (flags (x ∷ xs)) x.flag ≡ true = ground (arith, ==_refl x.flag) in
      (
        (λ n.
            sum-adjust x y (sym (ap (λ f. f == ModifierFlag.capslock) (flag-adjust x)) ∙ n)
              (a x.flag here ∙ count-subtract_head x y xs ys m.1)
              (r x.flag here
                ∙ ap (λ f. count f (subtract_items (y ∷ ys) (x ∷ xs))) m.0
                ∙ count-subtract_head y x ys xs absent)),
        SameSums-adjust xs ys m.2
            (λ k i.
              let ne = other_flag k x.flag xs m.1 i in
              a k (ground arith) ∙ count-subtract_tail k x y xs ys ne)
            (λ k i.
              let ne = other_flag k x.flag xs m.1 i in
              r k (ground arith) ∙ count-subtract_tail k y x ys xs (rw (← m.0) ne)),
      )

subtract_lem : (xs ys : List Item) → length xs ≡ length ys → subtract xs ys ≡ subtract_items xs ys
unfolding subtract
subtract_lem xs ys e = ground arith

-- If two `FlagStatus` have items for the same modifiers, each once, then inside the scope of a
-- `ScopedSetter` the sum of every modifier but caps lock, its lazy count included, is the sum that
-- the other one has.
pub enter-SameSums :
    (items newval : List Item) (b : Board)
    → Matches items newval
    → SameSums (enter items newval b).1.0 newval
unfolding enter
enter-SameSums items newval b m =
    let added = subtract items newval in
    let removed = subtract newval items in
    let first = method_each Method.decreases added (items, b) in
    let changed : (enter items newval b).1.0 ≡ map (adjust added removed) items =
      method_each_lem Method.increases removed first.0 first.1
      ∙ ap (map (λ x. times (count x.flag removed) Method.increases x))
          (method_each_lem Method.decreases added items b)
      ∙ adjust_all added removed items in
    let same = length-Matches items newval m in
    rw changed (
      SameSums-adjust added removed items newval m
        (λ k i. ap (count k) (subtract_lem items newval same))
        (λ k i. ap (count k) (subtract_lem newval items (sym same))))
