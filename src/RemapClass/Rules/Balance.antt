-- ===== src/RemapClass/Rules/Balance.antt =====
-- `ActiveItems` of core/kext/RemapClass.hpp keeps, for each rule, the key downs that it has handled
-- and whose key ups it has not.
use karabiner_cn.Base.{
  ℕ, suc, ◌+◌, ◌≡◌, refl, subst, ap, ap₂, ==_iff, ◌∙◌, inl, inr, Bool, true, false, not, ◌&&◌, List,
  [], ◌∷◌, Option, none, some, if◌then◌else◌, arith, Bool-cases,
}
use karabiner_cn.Params.{ParamsBase, iskeydown}
use karabiner_cn.RemapClass.{Item}
use karabiner_cn.RemapClass.Rules.{
  ItemId, Active, normal, simultaneousbuttonpresses, is_active, same_id, find, is_blocked_keyup,
  push_back, erase, update_active, passes_up, passes_down, reaches, Functions, Remapping,
  remap_item,
}

-- How often a rule is among the active items.
abbrev pub active_count : ItemId → List Active → ℕ
active_count id [] = 0
active_count id (x ∷ xs) =
    let rest = active_count id xs in if is_active id normal x then suc rest else rest

-- A call of `RemapClass::Item::remap` for some rule.
pub record Call (S : Type 0) : Type 0 where
  pub functions : Functions S
  pub id : ItemId
  pub item : Item
  pub pass_through : Bool
  pub params : ParamsBase
  pub isremapped : Bool

-- The calls, one after another, each from what the one before has left: the active items, the state
-- behind the functions, and how often the rule `id` has handled a key down and a key up.
pub record Counted (S : Type 0) : Type 0 where
  pub active : List Active
  pub outer : S
  pub downs : ℕ
  pub ups : ℕ

-- One more, if the rule has handled an event in this direction.
abbrev pub plus_if : Bool → Option Bool → Bool → ℕ → ℕ
plus_if handled none direction n = n
plus_if handled (some is_down) direction n =
    if handled && (if direction then is_down else not is_down) then suc n else n

unfoldable pub count_call : {S : Type 0} → ItemId → Call S → Counted S → Counted S
unfolding remap_item iskeydown
count_call id c x =
    let r =
      remap_item c.functions c.id c.item c.pass_through c.params
        (record { isremapped = c.isremapped; active = x.active; outer = x.outer }) in
    record {
      active = r.1.active;
      outer = r.1.outer;
      downs = plus_if (r.0 && same_id c.id id) (iskeydown c.params) true x.downs;
      ups = plus_if (r.0 && same_id c.id id) (iskeydown c.params) false x.ups;
    }

unfoldable pub count_calls : {S : Type 0} → ItemId → List (Call S) → Counted S → Counted S
unfolding count_call
count_calls id [] x = x
count_calls id (c ∷ cs) x = count_calls id cs (count_call id c x)

active_count-push_back :
    (id id' : ItemId) (xs : List Active)
    → active_count id (push_back id' normal xs)
      ≡ (if same_id id' id then suc (active_count id xs) else active_count id xs)
unfolding push_back
active_count-push_back id id' [] = ground arith
active_count-push_back id id' (x ∷ xs) = ground (arith, active_count-push_back id id' xs)

same_id_iff : (a b : ItemId) → same_id a b ≡ true → a ≡ b
same_id_iff (c, n) (d, m) h =
    ap₂ (λ x y. (x, y)) ((==_iff c d).0 (ground (arith, h))) ((==_iff n m).0 (ground (arith, h)))

-- Items that an active item stands for are the same.
is_active-same :
    (id id' : ItemId) (x : Active)
    → is_active id' normal x ≡ true
    → is_active id normal x ≡ same_id id' id
is_active-same id id' (a, normal) h =
    ap (λ i. same_id i id && true) (same_id_iff a id' (ground (arith, h))) ∙ ground arith
is_active-same id id' (a, simultaneousbuttonpresses) h = ground (arith, h)

active_count-erase :
    (id id' : ItemId) (xs : List Active)
    → find id' normal xs ≡ true
    → (if same_id id' id
        then suc (active_count id (erase id' normal xs))
        else active_count id (erase id' normal xs))
      ≡ active_count id xs
unfolding erase find
active_count-erase id id' [] h = ground (arith, h)
active_count-erase id id' (x ∷ xs) h = elim (Bool-cases (is_active id' normal x)) [
  | inl e ↦ rw e (ground (arith, is_active-same id id' x e))
  | inr n ↦ rw n (ground (arith, n, active_count-erase id id' xs (ground (arith, h, n))))
]

-- The rule `id` is among the active items as often as it has handled more key downs than key ups.
IsBalanced : {S : Type 0} → ItemId → ℕ → Counted S → Type 0
IsBalanced id n x = active_count id x.active + x.ups ≡ n + x.downs

found_of_passes :
    {S : Type 0} (f : Functions S) (id : ItemId) (i : Item) (x : Remapping S)
    → passes_up f id i normal x.active x.outer ≡ true
    → find id normal x.active ≡ true
unfolding passes_up
found_of_passes f id i x h =
    elim i.processor
        as (λ o.
          (elim o [
            | none ↦ false
            | some p ↦ find id normal x.active && not (is_blocked_keyup (f.current x.outer) i)
          ])
            ≡ true
          → find id normal x.active ≡ true) [ none ↦ λ h. cc (h) | some p ↦ λ h. ground (arith, h) ]
      h

found_of_reaches :
    {S : Type 0} (f : Functions S) (id : ItemId) (i : Item) (pass_through : Bool) (p : ParamsBase)
    (x : Remapping S)
    → reaches f id i pass_through p x ≡ true
    → iskeydown p ≡ some false
    → find id normal x.active ≡ true
unfolding reaches
found_of_reaches f id i pass_through p x h e = found_of_passes f id i x (
    subst
      (λ o.
        (elim o [
          | some false ↦ passes_up f id i normal x.active x.outer
          | _ ↦ passes_down f id i pass_through x.outer
        ])
        ≡ true)
      e h)

-- What a call does to the active items, and that a handled key up finds its rule among them.
remap_item-active :
    {S : Type 0} (f : Functions S) (id : ItemId) (i : Item) (pass_through : Bool) (p : ParamsBase)
    (x : Remapping S)
    → let r = remap_item f id i pass_through p x in
      (r.1.active ≡ (if r.0 then update_active id normal (iskeydown p) x.active else x.active))
      × (r.0 ≡ true → iskeydown p ≡ some false → find id normal x.active ≡ true)
unfolding remap_item
remap_item-active f id i pass_through p x = elim (Bool-cases (reaches f id i pass_through p x)) [
  | inl y ↦ rw y (refl, λ h e. found_of_reaches f id i pass_through p x y e)
  | inr n ↦ rw n (refl, λ h e. cc (h))
]

-- One event for the rule `id'`.
balanced-update_active :
    (id id' : ItemId) (kd : Option Bool) (handled : Bool) (active : List Active) (ups downs n : ℕ)
    → (handled ≡ true → kd ≡ some false → find id' normal active ≡ true)
    → active_count id active + ups ≡ n + downs
    → active_count id (if handled then update_active id' normal kd active else active)
        + plus_if (handled && same_id id' id) kd false ups
      ≡ n + plus_if (handled && same_id id' id) kd true downs
unfolding update_active
balanced-update_active id id' none false active ups downs n h b = b
balanced-update_active id id' (some k) false active ups downs n h b = b
balanced-update_active id id' none true active ups downs n h b = b
balanced-update_active id id' (some true) true active ups downs n h b =
    ground (arith, active_count-push_back id id' active, b)
balanced-update_active id id' (some false) true active ups downs n h b =
    ground (arith, active_count-erase id id' active (h refl refl), b)

count_call-IsBalanced :
    {S : Type 0} (id : ItemId) (n : ℕ) (c : Call S) (x : Counted S)
    → IsBalanced id n x
    → IsBalanced id n (count_call id c x)
unfolding IsBalanced count_call
count_call-IsBalanced id n c x h =
    let y : Remapping _ = record {
      isremapped = c.isremapped;
      active = x.active;
      outer = x.outer;
    } in
    let a = remap_item-active c.functions c.id c.item c.pass_through c.params y in
    ap
      (λ l.
        active_count id l
        + plus_if
            ((remap_item c.functions c.id c.item c.pass_through c.params y).0 && same_id c.id id)
            (iskeydown c.params) false x.ups)
      a.0
    ∙ balanced-update_active id c.id (iskeydown c.params)
        (remap_item c.functions c.id c.item c.pass_through c.params y).0 x.active x.ups x.downs n
        a.1 h

-- Whatever calls of `remap` come one after another, for this rule and for others, with whatever the
-- processors answer: the rule is among the active items as often as at the start and as it has
-- handled more key downs than key ups since then. So it never handles a key up without a key down.
pub active_count-count_calls :
    {S : Type 0} (id : ItemId) (cs : List (Call S)) (x : Counted S) (n : ℕ)
    → active_count id x.active + x.ups ≡ n + x.downs
    → active_count id (count_calls id cs x).active + (count_calls id cs x).ups
      ≡ n + (count_calls id cs x).downs
unfolding count_calls IsBalanced
active_count-count_calls id [] x n h = h
active_count-count_calls id (c ∷ cs) x n h =
    active_count-count_calls id cs (count_call id c x) n (count_call-IsBalanced id n c x h)
