-- ===== src/EventInputQueue/Bouncing/Removed.antt =====
-- What the removal of bouncing events (core/kext/Classes/EventInputQueue.cpp) takes out of the queue.
use karabiner_cn.Base.{
  ℕ, zero, suc, ◌+◌, ◌≡◌, refl, ap, inl, inr, Bool, ◌&&◌, List, [], ◌∷◌, ◌++◌, Option, none, some,
  arith, if◌then◌else◌, ltb, length, Bool-cases,
}
use karabiner_cn.EventInputQueue.{Item}
use karabiner_cn.FromEvent.{FromEvent, of_params, is_target_down_event, is_target_up_event}
use karabiner_cn.Params.{iskeydown}
use karabiner_cn.EventInputQueue.Bouncing.{
  Settings, threshold, interval, scan, is_up, remove_pair, remove_bouncing_fuel, remove_bouncing,
  ignore_bouncing, push, or_else,
}
use karabiner_cn.EventInputQueue.Bouncing.Laws.{downs, ups, IsBalanced, remove_bouncing_lem}

-- How many items pass a test.
unfoldable pub count : (Item → Bool) → List Item → ℕ
count f [] = 0
count f (x ∷ xs) = if f x then suc (count f xs) else count f xs

pub count-append :
    (f : Item → Bool) (xs ys : List Item) → count f (xs ++ ys) ≡ count f xs + count f ys
unfolding count
count-append f [] ys = omega arith
count-append f (x ∷ xs) ys = ground (arith, count-append f xs ys)

downs-count :
    (e : FromEvent) (xs : List Item) → downs e xs ≡ count (λ x. is_target_down_event e x.params) xs
unfolding downs count
downs-count e [] = refl
downs-count e (x ∷ xs) = ground (arith, downs-count e xs)

ups-count :
    (e : FromEvent) (xs : List Item) → ups e xs ≡ count (λ x. is_target_up_event e x.params) xs
unfolding ups count
ups-count e [] = refl
ups-count e (x ∷ xs) = ground (arith, ups-count e xs)

pub downs-append :
    (e : FromEvent) (xs ys : List Item) → downs e (xs ++ ys) ≡ downs e xs + downs e ys
unfolding downs
downs-append e [] ys = omega arith
downs-append e (x ∷ xs) ys = ground (arith, downs-append e xs ys)

pub ups-append : (e : FromEvent) (xs ys : List Item) → ups e (xs ++ ys) ≡ ups e xs + ups e ys
unfolding ups
ups-append e [] ys = omega arith
ups-append e (x ∷ xs) ys = ground (arith, ups-append e xs ys)

-- The first list is the second one with some items more, wherever they stood.
abbrev pub Splits : List Item → List Item → List Item → Type 0
Splits xs ys removed = (f : Item → Bool) → count f xs ≡ count f ys + count f removed

Left : List Item → Option (List Item) → Type 0
Left xs none = Unit
Left xs (some ys) = (removed : List Item) × Splits xs ys removed

push-Left :
    (x : Item) (xs : List Item) (o : Option (List Item)) → Left xs o → Left (x ∷ xs) (push x o)
unfolding Left count
push-Left x xs none h = tt
push-Left x xs (some ys) (removed, s) = (removed, λ f. ground (arith, s f))

scan-Left : (c : Settings) (p : Item) (qs : List Item) → Left qs (scan c p qs)
unfolding scan Left count
scan-Left c p [] = tt
scan-Left c p (q ∷ qs) = elim (Bool-cases (is_target_up_event (of_params p.params) q.params)) [
  | inl u ↦ rw u tt
  | inr u ↦
      elim (Bool-cases (
        is_target_down_event (of_params p.params) q.params
        && ltb (interval c p q) (threshold c (of_params p.params)))) [
          | inl d ↦ rw (u, d) (q ∷ [], λ f. ground arith)
          | inr d ↦ rw (u, d) (push-Left q qs (scan c p qs) (scan-Left c p qs))
        ]
]

-- The key up event goes with its key down event.
drop-Left : (p : Item) (ps : List Item) (o : Option (List Item)) → Left ps o → Left (p ∷ ps) o
unfolding Left count
drop-Left p ps none h = tt
drop-Left p ps (some ys) (removed, s) = (p ∷ removed, λ f. ground (arith, s f))

or_else-Left :
    (xs : List Item) (a b : Option (List Item)) → Left xs a → Left xs b → Left xs (or_else a b)
or_else-Left xs none b h k = k
or_else-Left xs (some ys) b h k = h

remove_pair-Left : (c : Settings) (xs : List Item) → Left xs (remove_pair c xs)
unfolding remove_pair Left
remove_pair-Left c [] = tt
remove_pair-Left c (p ∷ ps) =
    or_else-Left (p ∷ ps) _ (push p (remove_pair c ps)) first
      (push-Left p ps (remove_pair c ps) (remove_pair-Left c ps))
  where
    first : Left (p ∷ ps) (if is_up (iskeydown p.params) then scan c p ps else none)
    first = elim (Bool-cases (is_up (iskeydown p.params))) [
      | inl u ↦ rw u (drop-Left p ps (scan c p ps) (scan-Left c p ps))
      | inr u ↦ rw u tt
    ]

trans-Left :
    (xs ys : List Item) (o : Option (List Item)) → Left xs (some ys) → Left ys o → Left xs o
unfolding Left
trans-Left xs ys none h k = tt
trans-Left xs ys (some zs) (a, s) (b, r) =
    (a ++ b, λ f. omega (arith, s f, r f, count-append f a b))

same-Left : (xs : List Item) → Left xs (some xs)
unfolding Left count
same-Left xs = ([], λ f. omega arith)

retry-Left :
    (xs : List Item) (next : List Item → Option (List Item)) (o : Option (List Item))
    → Left xs o
    → ((ys : List Item) → Left ys (next ys))
    → Left xs (elim o [ none ↦ some xs | some ys ↦ next ys ])
retry-Left xs next none h k = same-Left xs
retry-Left xs next (some ys) h k = trans-Left xs ys (next ys) h (k ys)

fuel-Left : (c : Settings) (n : ℕ) (xs : List Item) → Left xs (remove_bouncing_fuel c n xs)
unfolding remove_bouncing_fuel Left
fuel-Left c zero xs = tt
fuel-Left c (suc n) xs =
    retry-Left xs (remove_bouncing_fuel c n) (remove_pair c xs) (remove_pair-Left c xs)
      (fuel-Left c n)

-- The items that a turn of the timer removes, which are as many down events as up events of each
-- object, and none if the setting is off.
pub record Removes (o : Option Settings) (xs ys removed : List Item) : Type 0 where
  pub split : Splits xs ys removed
  pub balanced : (e : FromEvent) → downs e removed ≡ ups e removed
  pub idle : o ≡ none → removed ≡ []

removed_balanced :
    (xs ys removed : List Item)
    → IsBalanced xs ys
    → Splits xs ys removed
    → (e : FromEvent) → downs e removed ≡ ups e removed
removed_balanced xs ys removed b s e = omega (
  arith,
  b e,
  s (λ x. is_target_down_event e x.params),
  s (λ x. is_target_up_event e x.params),
  downs-count e xs,
  downs-count e ys,
  downs-count e removed,
  ups-count e xs,
  ups-count e ys,
  ups-count e removed,
)

ignore_bouncing-some :
    (c : Settings) (xs ys : List Item)
    → remove_bouncing c xs ≡ some ys
    → ignore_bouncing (some c) xs ≡ ys
unfolding ignore_bouncing
ignore_bouncing-some c xs ys e = ap (λ o. elim o [ none ↦ xs | some zs ↦ zs ]) e

pub ignore_bouncing-Removes :
    (o : Option Settings) (xs : List Item)
    → (removed : List Item) × Removes o xs (ignore_bouncing o xs) removed
unfolding ignore_bouncing count downs ups Left
ignore_bouncing-Removes none xs =
    ([], record { split = λ f. omega arith; balanced = λ e. refl; idle = λ e. refl })
ignore_bouncing-Removes (some c) xs =
    let (ys, e, r, stop, b) = remove_bouncing_lem c xs in
    let (removed, s) = rw e at (fuel-Left c (suc (length xs)) xs) in
    rw (ignore_bouncing-some c xs ys e)
      (removed, record { split = s; balanced = removed_balanced xs ys removed b s; idle = λ n. cc })
