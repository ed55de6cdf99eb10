-- ===== src/EventInputQueue/Bouncing/Reduction.antt =====
-- The removal of bouncing events (core/kext/Classes/EventInputQueue.cpp) as steps that take out one
-- bouncing pair each.
use karabiner_cn.Base.{
  ℕ, zero, suc, ◌+◌, ◌<◌, ◌%◌, ◌^◌, ◌≡◌, refl, ap, subst, ◌≢◌, inl, inr, Bool, true, false, not,
  ◌&&◌, &&_elim, List, [], ◌∷◌, ◌++◌, Option, none, some, All, arith, if◌then◌else◌, ltb, ltb→lt,
  Bool-cases,
}
use karabiner_cn.EventInputQueue.{Item}
use karabiner_cn.FromEvent.{
  FromEvent, of_params, is_target_down_event, is_target_up_event, target_event,
}
use karabiner_cn.Params.{ParamsBase, iskeydown}
use karabiner_cn.EventInputQueue.Bouncing.{
  Settings, threshold, interval, scan, is_up, remove_pair, remove_bouncing_fuel, push, or_else,
}
use karabiner_cn.EventInputQueue.Bouncing.Pair.{BouncingPair, threshold-limit}

-- The key down event that the inner loop finds for a key up event, and what stands around it.
record Found (c : Settings) (p : Item) (ps zs : List Item) : Type 0 where
  between : List Item
  key_down_event : Item
  after : List Item
  split : ps ≡ between ++ (key_down_event ∷ after)
  kept : zs ≡ between ++ after
  is_key_down : target_event (of_params p.params) key_down_event.params ≡ some true
  no_key_up : All (λ x. target_event (of_params p.params) x.params ≢ some false) between
  is_short : interval c p key_down_event < threshold c (of_params p.params)

FoundIn : Settings → Item → List Item → Option (List Item) → Type 0
FoundIn c p ps none = Unit
FoundIn c p ps (some zs) = Found c p ps zs

target_of_down :
    (e : FromEvent) (r : ParamsBase)
    → is_target_down_event e r ≡ true
    → target_event e r ≡ some true
unfolding is_target_down_event
target_of_down e r d = from_down (target_event e r) d
  where
    from_down :
        (o : Option Bool)
        → (elim o [ none ↦ false | some is_down ↦ is_down ]) ≡ true
        → o ≡ some true
    from_down none d = cc
    from_down (some true) d = refl
    from_down (some false) d = cc

target_of_not_up :
    (e : FromEvent) (r : ParamsBase)
    → is_target_up_event e r ≡ false
    → target_event e r ≢ some false
unfolding is_target_up_event
target_of_not_up e r u h =
    let up = ap (λ o. elim o [ none ↦ false | some is_down ↦ not is_down ]) h in cc

push-FoundIn :
    (c : Settings) (p q : Item) (qs : List Item) (o : Option (List Item))
    → target_event (of_params p.params) q.params ≢ some false
    → FoundIn c p qs o
    → FoundIn c p (q ∷ qs) (push q o)
unfolding FoundIn
push-FoundIn c p q qs none u f = tt
push-FoundIn c p q qs (some zs) u f = record {
  between = q ∷ f.between;
  key_down_event = f.key_down_event;
  after = f.after;
  split = ap (◌∷◌ q) f.split;
  kept = ap (◌∷◌ q) f.kept;
  is_key_down = f.is_key_down;
  no_key_up = (u, f.no_key_up);
  is_short = f.is_short;
}

scan-FoundIn : (c : Settings) (p : Item) (qs : List Item) → FoundIn c p qs (scan c p qs)
unfolding scan FoundIn
scan-FoundIn c p [] = tt
scan-FoundIn c p (q ∷ qs) =
    let e = of_params p.params in
    elim (Bool-cases (is_target_up_event e q.params)) [
      | inl u ↦ rw u tt
      | inr u ↦
          elim (Bool-cases
            (is_target_down_event e q.params && ltb (interval c p q) (threshold c e))) [
              | inl d ↦
                  rw (u, d)
                    (record {
                      between = [];
                      key_down_event = q;
                      after = qs;
                      split = refl;
                      kept = refl;
                      is_key_down = target_of_down e q.params (&&_elim _ _ d).0;
                      no_key_up = tt;
                      is_short = ltb→lt _ _ (&&_elim _ _ d).1;
                    })
              | inr d ↦
                  rw (u, d)
                    (push-FoundIn c p q qs (scan c p qs) (target_of_not_up e q.params u)
                      (scan-FoundIn c p qs))
            ]
    ]

-- A pair of the list is taken out of it.
abbrev without : (c : Settings) (xs : List Item) → BouncingPair c xs → List Item
without c xs b = b.before ++ (b.between ++ b.after)

Taken : Settings → List Item → Option (List Item) → Type 0
Taken c xs none = Unit
Taken c xs (some ys) = (b : BouncingPair c xs) × (ys ≡ without c xs b)

is_up_lem : (o : Option Bool) → is_up o ≡ true → o ≡ some false
is_up_lem none e = cc
is_up_lem (some true) e = cc
is_up_lem (some false) e = refl

interval-lt : (c : Settings) (p q : Item) → interval c p q < 2 ^ 32
interval-lt c p q = omega arith

interval-add :
    (c : Settings) (p q : Item)
    → (c.getmillisec q.ic + interval c p q) % 2 ^ 32 ≡ c.getmillisec p.ic % 2 ^ 32
interval-add c p q = omega arith

Found-Taken :
    (c : Settings) (p : Item) (ps : List Item) (o : Option (List Item))
    → iskeydown p.params ≡ some false
    → FoundIn c p ps o
    → Taken c (p ∷ ps) o
unfolding FoundIn Taken
Found-Taken c p ps none u f = tt
Found-Taken c p ps (some zs) u f = (
  record {
    before = [];
    key_up_event = p;
    between = f.between;
    key_down_event = f.key_down_event;
    after = f.after;
    split = ap (◌∷◌ p) f.split;
    is_key_up = u;
    is_key_down = f.is_key_down;
    no_key_up = f.no_key_up;
    apart = interval c p f.key_down_event;
    apart-lt = interval-lt c p f.key_down_event;
    apart_eq = interval-add c p f.key_down_event;
    is_short = omega (arith, f.is_short, threshold-limit c p.params u);
  },
  f.kept,
)

-- The outer loop goes on to the next item.
push-Taken :
    (c : Settings) (x : Item) (xs : List Item) (o : Option (List Item))
    → Taken c xs o
    → Taken c (x ∷ xs) (push x o)
unfolding Taken
push-Taken c x xs none t = tt
push-Taken c x xs (some ys) (b, e) = (
  record {
    before = x ∷ b.before;
    key_up_event = b.key_up_event;
    between = b.between;
    key_down_event = b.key_down_event;
    after = b.after;
    split = ap (◌∷◌ x) b.split;
    is_key_up = b.is_key_up;
    is_key_down = b.is_key_down;
    no_key_up = b.no_key_up;
    apart = b.apart;
    apart-lt = b.apart-lt;
    apart_eq = b.apart_eq;
    is_short = b.is_short;
  },
  ap (◌∷◌ x) e,
)

or_else-Taken :
    (c : Settings) (xs : List Item) (a b : Option (List Item))
    → Taken c xs a
    → Taken c xs b
    → Taken c xs (or_else a b)
or_else-Taken c xs none b r t = t
or_else-Taken c xs (some ys) b r t = r

remove_pair-Taken : (c : Settings) (xs : List Item) → Taken c xs (remove_pair c xs)
unfolding remove_pair Taken
remove_pair-Taken c [] = tt
remove_pair-Taken c (p ∷ ps) =
    or_else-Taken c (p ∷ ps) _ (push p (remove_pair c ps)) first
      (push-Taken c p ps (remove_pair c ps) (remove_pair-Taken c ps))
  where
    first : Taken c (p ∷ ps) (if is_up (iskeydown p.params) then scan c p ps else none)
    first = elim (Bool-cases (is_up (iskeydown p.params))) [
      | inl u ↦ rw u (Found-Taken c p ps (scan c p ps) (is_up_lem _ u) (scan-FoundIn c p ps))
      | inr u ↦ rw u tt
    ]

-- The second list is left of the first one when bouncing pairs are taken out one by one.
pub data Reduces (c : Settings) : List Item → List Item → Type 0 where
  ends : (xs : List Item) → Reduces c xs xs
  takes :
      (xs ys : List Item) (b : BouncingPair c xs)
      → Reduces c (b.before ++ (b.between ++ b.after)) ys
      → Reduces c xs ys

ReducesTo : Settings → List Item → Option (List Item) → Type 0
ReducesTo c xs none = Unit
ReducesTo c xs (some ys) = Reduces c xs ys

retry-ReducesTo :
    (c : Settings) (xs : List Item) (next : List Item → Option (List Item)) (o : Option (List Item))
    → Taken c xs o
    → ((ys : List Item) → ReducesTo c ys (next ys))
    → ReducesTo c xs (elim o [ none ↦ some xs | some ys ↦ next ys ])
unfolding Taken ReducesTo
retry-ReducesTo c xs next none t k = ends xs
retry-ReducesTo c xs next (some ys) (b, e) k =
    taken_first (next ys) (subst (λ zs. ReducesTo c zs (next ys)) e (k ys))
  where
    taken_first : (o : Option (List Item)) → ReducesTo c (without c xs b) o → ReducesTo c xs o
    taken_first none r = r
    taken_first (some zs) r = takes xs zs b r

fuel-ReducesTo :
    (c : Settings) (n : ℕ) (xs : List Item) → ReducesTo c xs (remove_bouncing_fuel c n xs)
unfolding remove_bouncing_fuel ReducesTo
fuel-ReducesTo c zero xs = tt
fuel-ReducesTo c (suc n) xs =
    retry-ReducesTo c xs (remove_bouncing_fuel c n) (remove_pair c xs) (remove_pair-Taken c xs)
      (fuel-ReducesTo c n)

pub fuel-Reduces :
    (c : Settings) (n : ℕ) (xs ys : List Item)
    → remove_bouncing_fuel c n xs ≡ some ys
    → Reduces c xs ys
unfolding ReducesTo
fuel-Reduces c n xs ys e = subst (ReducesTo c xs) e (fuel-ReducesTo c n xs)
