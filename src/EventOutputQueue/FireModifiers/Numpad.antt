-- ===== src/EventOutputQueue/FireModifiers/Numpad.antt =====
-- `FireModifiers::fire` of core/kext/Classes/EventOutputQueue.cpp takes the numpad flag off before its
-- loops and puts it on behind them, which no modifier of the table sees.
use karabiner_cn.Base.{
  inr, ℕ, ◌≡◌, ◌≢◌, refl, ap, ap₂, subst, ◌∙◌, inl, inr, true, ◌++◌, map, is_include,
  filter_by_congr, arith, Bool-cases,
}
use karabiner_cn.Flags
use karabiner_cn.Flags.Consistent.{is_on-add, add-IsConsistent, remove-IsConsistent}
use karabiner_cn.Flags.Laws.{is_on-remove}
use karabiner_cn.KeyCodeModifierFlagPairs.{KeyCodeType, get_key_code, modifier_flags}
use karabiner_cn.ModifierFlag
use karabiner_cn.ModifierFlag.{get_raw_bits}
use karabiner_cn.EventOutputQueue.{State, World}
use karabiner_cn.EventOutputQueue.FireModifiers.{is_skipped, remove_numpad, add_numpad}
use karabiner_cn.EventOutputQueue.FireModifiers.Loop.{sent_keys, raw_of_kept, other_flag}
use karabiner_cn.EventOutputQueue.FireModifiers.Difference.{IsReady, Fired}

raw-numpad : get_raw_bits ModifierFlag.numpad ≢ 0
unfolding get_raw_bits
raw-numpad = ground arith

-- Without the numpad flag the last flags are the same for the modifiers of the table.
module _ (w : World) (s : State) (r : IsReady w s) where
  abbrev removed : State
  removed = record s {
    last_flags = Flags.remove (modifier_flags w.pairs) s.last_flags ModifierFlag.numpad;
  }

  removed-IsReady : IsReady w removed
  removed-IsReady = record {
    registered = r.registered;
    distinct = r.distinct;
    no_numpad = r.no_numpad;
    consistent =
        remove-IsConsistent (modifier_flags w.pairs) s.last_flags ModifierFlag.numpad r.consistent
          raw-numpad;
  }

  is_on-removed :
      (f : ℕ)
      → get_raw_bits f ≢ 0
      → is_include (modifier_flags w.pairs) f ≡ true
      → Flags.is_on removed.last_flags f ≡ Flags.is_on s.last_flags f
  is_on-removed f h i = ground (
    arith,
    is_on-remove (modifier_flags w.pairs) s.last_flags ModifierFlag.numpad f r.consistent.bounded
        raw-numpad h (inr i),
    other_flag ModifierFlag.numpad (modifier_flags w.pairs) f r.no_numpad i,
  )

  abbrev added : State
  added = record s { last_flags = Flags.add s.last_flags ModifierFlag.numpad }

  added-IsReady : IsReady w added
  added-IsReady = record {
    registered = r.registered;
    distinct = r.distinct;
    no_numpad = r.no_numpad;
    consistent =
        add-IsConsistent (modifier_flags w.pairs) s.last_flags ModifierFlag.numpad r.consistent;
  }

  is_on-added :
      (f : ℕ)
      → get_raw_bits f ≢ 0
      → is_include (modifier_flags w.pairs) f ≡ true
      → Flags.is_on added.last_flags f ≡ Flags.is_on s.last_flags f
  is_on-added f h i = ground (
    arith,
    is_on-add (modifier_flags w.pairs) s.last_flags ModifierFlag.numpad f r.consistent h i,
    other_flag ModifierFlag.numpad (modifier_flags w.pairs) f r.no_numpad i,
  )

-- The numpad flag is of no modifier of the table.
module _ (w : World) (to_flags : ℕ) where
  from_removed :
      (s s' : State) (r : IsReady w s) → Fired w to_flags (removed w s r) s' → Fired w to_flags s s'
  from_removed s s' r f = record {
    agrees = f.agrees;
    keys =
        f.keys
        ∙ ap (λ l. sent_keys s.queue ++ l)
            (ap₂ (λ xs ys. map key_code xs ++ map key_code ys)
              (filter_by_congr _ _ (modifier_flags w.pairs) λ m i.
                elim (Bool-cases (is_skipped w.pairs m)) [
                  | inl skip ↦ ground (arith, skip)
                  | inr keep ↦
                      ground (arith, keep, is_on-removed w s r m (raw_of_kept w.pairs m keep) i)
                ])
              (filter_by_congr _ _ (modifier_flags w.pairs) λ m i.
                elim (Bool-cases (is_skipped w.pairs m)) [
                  | inl skip ↦ ground (arith, skip)
                  | inr keep ↦
                      ground (arith, keep, is_on-removed w s r m (raw_of_kept w.pairs m keep) i)
                ]));
    ready = f.ready;
  }
    where
      key_code : ℕ → ℕ
      key_code m = get_key_code w.pairs m KeyCodeType.keycode

  pub remove_numpad-Fired :
      (s s' : State)
      → IsReady w s
      → (IsReady w (remove_numpad w to_flags s) → Fired w to_flags (remove_numpad w to_flags s) s')
      → Fired w to_flags s s'
  unfolding remove_numpad
  remove_numpad-Fired s s' r h = elim (Bool-cases (Flags.is_on to_flags ModifierFlag.numpad)) [
    | inl on ↦ kept _ (rw on refl) h
    | inr off ↦ changed _ (rw off refl) h
  ]
    where
      kept : (u : State) → u ≡ s → (IsReady w u → Fired w to_flags u s') → Fired w to_flags s s'
      kept u e k = subst (λ v. IsReady w v → Fired w to_flags v s') e k r

      changed :
          (u : State)
          → u ≡ removed w s r
          → (IsReady w u → Fired w to_flags u s')
          → Fired w to_flags s s'
      changed u e k =
          from_removed s s' r
            (subst (λ v. IsReady w v → Fired w to_flags v s') e k (removed-IsReady w s r))

  pub add_numpad-Fired :
      (s s' : State) → Fired w to_flags s s' → Fired w to_flags s (add_numpad to_flags s')
  unfolding add_numpad
  add_numpad-Fired s s' f = elim (Bool-cases (Flags.is_on to_flags ModifierFlag.numpad)) [
    | inl on ↦ rw on (record {
      agrees = λ m i k. is_on-added w s' f.ready m (raw_of_kept w.pairs m k) i ∙ f.agrees m i k;
      keys = f.keys;
      ready = added-IsReady w s' f.ready;
    })
    | inr off ↦ rw off f
  ]
