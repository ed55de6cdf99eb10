-- ===== src/EventOutputQueue/FireModifiers/Difference.antt =====
-- The two loops of `FireModifiers::fire` of core/kext/Classes/EventOutputQueue.cpp send the modifiers
-- in which the last flags and the wanted flags differ.
use karabiner_cn.Base.{
  ℕ, ◌≡◌, refl, ap, ap₂, ◌∙◌, inl, inr, Bool, true, false, not, ◌&&◌, List, ◌++◌, map, is_include,
  IsDistinct, filter_by, filter_by_congr, arith, Bool-cases, map-append,
}
use karabiner_cn.Flags
use karabiner_cn.Flags.Consistent.{IsConsistent, is_on-add, add-IsConsistent, remove-IsConsistent}
use karabiner_cn.Flags.Laws.{is_on-remove}
use karabiner_cn.KeyCodeModifierFlagPairs.{KeyCodeType, get_key_code, modifier_flags}
use karabiner_cn.ModifierFlag
use karabiner_cn.ModifierFlag.{get_raw_bits}
use karabiner_cn.EventOutputQueue.{State, World}
use karabiner_cn.EventOutputQueue.FireModifiers.{
  is_skipped, passes_up, passes_down, key_ups, key_downs, item_flags,
}
use karabiner_cn.EventOutputQueue.FireModifiers.Loop.{
  sent_keys, Sends-trans, Passed, send_loop-Passed, needed, raw_of_kept,
}

-- The items of the global `FlagStatus` are the registered modifiers, each once, of which the numpad
-- flag is none, and the last flags are consistent.
pub record IsReady (w : World) (s : State) : Type 0 where
  pub registered : item_flags s.flag_status ≡ modifier_flags w.pairs
  pub distinct : IsDistinct (modifier_flags w.pairs)
  pub no_numpad : is_include (modifier_flags w.pairs) ModifierFlag.numpad ≡ false
  pub consistent : IsConsistent (modifier_flags w.pairs) s.last_flags

-- A modifier that the loops do not skip, on in the one word of flags and off in the other.
abbrev pub differs : World → ℕ → ℕ → ℕ → Bool
differs w on_in off_in f =
    not (is_skipped w.pairs f) && Flags.is_on on_in f && not (Flags.is_on off_in f)

-- The keys of the modifiers that a test holds for, in the order of the table.
abbrev pub modifier_keys : World → (ℕ → Bool) → List ℕ
modifier_keys w test =
    map (λ f. get_key_code w.pairs f KeyCodeType.keycode) (filter_by test (modifier_flags w.pairs))

module _ (w : World) (autogen_id to_flags keyboard_type : ℕ) (s : State) (r : IsReady w s) where
  ups-Passed :
      Passed w to_flags false
        (passes_up w.pairs to_flags)
        s
        (key_ups w autogen_id to_flags keyboard_type (modifier_flags w.pairs) s)
        (modifier_flags w.pairs)
  unfolding key_ups
  ups-Passed =
      send_loop-Passed w autogen_id keyboard_type to_flags false (passes_up w.pairs to_flags)
        (Flags.remove (modifier_flags w.pairs)) (λ last f. ground arith)
        (λ value m f c hm hf i.
          ground (arith, is_on-remove (modifier_flags w.pairs) value m f c.bounded hm hf (inr i)))
        (λ value m c hm. remove-IsConsistent (modifier_flags w.pairs) value m c hm)
        (modifier_flags w.pairs) s r.distinct (λ f i. i) r.consistent

  downs-Passed :
      Passed w to_flags true
        (passes_down w.pairs to_flags)
        s
        (key_downs w autogen_id to_flags keyboard_type (modifier_flags w.pairs) s)
        (modifier_flags w.pairs)
  unfolding key_downs
  downs-Passed =
      send_loop-Passed w autogen_id keyboard_type to_flags true (passes_down w.pairs to_flags)
        Flags.add (λ last f. refl)
        (λ value m f c hm hf i. ground (arith, is_on-add (modifier_flags w.pairs) value m f c hf i))
        (λ value m c hm. add-IsConsistent (modifier_flags w.pairs) value m c)
        (modifier_flags w.pairs) s r.distinct (λ f i. i) r.consistent

-- What the steps of `fire` do from `s` to `s'`.
pub record Fired (w : World) (to_flags : ℕ) (s s' : State) : Type 0 where
  pub agrees :
      (f : ℕ)
      → is_include (modifier_flags w.pairs) f ≡ true
      → is_skipped w.pairs f ≡ false
      → Flags.is_on s'.last_flags f ≡ Flags.is_on to_flags f
  pub keys :
      sent_keys s'.queue
      ≡ sent_keys s.queue
        ++ (modifier_keys w (differs w s.last_flags to_flags)
            ++ modifier_keys w (differs w to_flags s.last_flags))
  pub ready : IsReady w s'

-- The two loops.
module _ (w : World) (autogen_id to_flags keyboard_type : ℕ) (s : State) (r : IsReady w s) where
  abbrev pub ups : State
  ups = key_ups w autogen_id to_flags keyboard_type (modifier_flags w.pairs) s

  pub ups-IsReady : IsReady w ups
  ups-IsReady =
      let p = ups-Passed w autogen_id to_flags keyboard_type s r in
      record {
        registered = ap item_flags p.sends.flag_status ∙ r.registered;
        distinct = r.distinct;
        no_numpad = r.no_numpad;
        consistent = p.consistent;
      }

  abbrev downs : State
  downs = key_downs w autogen_id to_flags keyboard_type (modifier_flags w.pairs) ups

  pub loops-Fired : Fired w to_flags s downs
  loops-Fired =
      let p = ups-Passed w autogen_id to_flags keyboard_type s r in
      let q = downs-Passed w autogen_id to_flags keyboard_type ups ups-IsReady in
      record {
        agrees = λ f i k.
            let raw = raw_of_kept w.pairs f k in ground (arith, p.on f raw i, q.on f raw i);
        keys =
            (Sends-trans w s ups downs _ _ p.sends q.sends).keys
            ∙ ap (λ l. sent_keys s.queue ++ l)
                (map-append _ (filter_by (needed w to_flags false (passes_up w.pairs to_flags) s) _)
                    _
                  ∙ ap₂ (λ xs ys. map key_code xs ++ map key_code ys) (filtered_ups)
                      (filtered_downs p));
        ready = record {
          registered = ap item_flags q.sends.flag_status ∙ ups-IsReady.registered;
          distinct = r.distinct;
          no_numpad = r.no_numpad;
          consistent = q.consistent;
        };
      }
    where
      key_code : ℕ → ℕ
      key_code f = get_key_code w.pairs f KeyCodeType.keycode

      filtered_ups :
          filter_by
            (needed w to_flags false (passes_up w.pairs to_flags) s)
            (modifier_flags w.pairs)
          ≡ filter_by (differs w s.last_flags to_flags) (modifier_flags w.pairs)
      filtered_ups = filter_by_congr _ _ (modifier_flags w.pairs) λ f i. ground arith

      filtered_downs :
          Passed w to_flags false (passes_up w.pairs to_flags) s ups (modifier_flags w.pairs)
          → filter_by
              (needed w to_flags true (passes_down w.pairs to_flags) ups)
              (modifier_flags w.pairs)
            ≡ filter_by (differs w to_flags s.last_flags) (modifier_flags w.pairs)
      filtered_downs p = filter_by_congr _ _ (modifier_flags w.pairs) λ f i.
          elim (Bool-cases (is_skipped w.pairs f)) [
            | inl skip ↦ ground (arith, skip)
            | inr keep ↦ ground (arith, keep, p.on f (raw_of_kept w.pairs f keep) i)
          ]
