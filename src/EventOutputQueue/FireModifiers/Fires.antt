-- ===== src/EventOutputQueue/FireModifiers/Fires.antt =====
-- `FireModifiers::fire` of core/kext/Classes/EventOutputQueue.cpp as a whole.
use karabiner_cn.Base.{
  ℕ, ◌≡◌, refl, sym, ap, ap₂, subst, ◌∙◌, inl, inr, ◌⊎◌, Bool, true, false, List, [], ◌∷◌, ◌++◌,
  ◌==◌, ==_iff, ==_refl, if◌then◌else◌, map, is_include, filter_by, arith, Bool-cases, append-nil,
}
use karabiner_cn.KeyCodeModifierFlagPairs.{KeyCodeType, get_key_code, modifier_flags}
use karabiner_cn.EventOutputQueue.{State, World, PhysicalEventType, physical_down, physical_up}
use karabiner_cn.EventOutputQueue.FireModifiers.{
  is_skipped, key_ups, key_downs, item_flags, send_all, remove_numpad, send_difference, fire,
}
use karabiner_cn.EventOutputQueue.FireModifiers.Loop.{sent_keys}
use karabiner_cn.EventOutputQueue.FireModifiers.Difference.{
  IsReady, differs, modifier_keys, Fired, ups, ups-IsReady, loops-Fired,
}
use karabiner_cn.EventOutputQueue.FireModifiers.Numpad.{remove_numpad-Fired, add_numpad-Fired}

-- Nothing differs between a word and itself.
differs_self : (w : World) (flags : ℕ) (fs : List ℕ) → filter_by (differs w flags flags) fs ≡ []
differs_self w flags [] = refl
differs_self w flags (f ∷ fs) = ground (arith, differs_self w flags fs)

module _ (w : World) (autogen_id to_flags keyboard_type : ℕ) (s : State) (r : IsReady w s) where
  send_all-Fired : Fired w to_flags s (send_all w autogen_id to_flags keyboard_type s)
  unfolding send_all
  send_all-Fired =
      subst (Fired w to_flags s)
        (ap₂ (λ fs s'. key_downs w autogen_id to_flags keyboard_type fs s')
          (sym u.registered ∙ ap (λ s'. item_flags s'.flag_status) e) e)
        (loops-Fired w autogen_id to_flags keyboard_type s r)
    where
      u : IsReady w (ups w autogen_id to_flags keyboard_type s r)
      u = ups-IsReady w autogen_id to_flags keyboard_type s r

      e :
          ups w autogen_id to_flags keyboard_type s r
          ≡ key_ups w autogen_id to_flags keyboard_type (item_flags s.flag_status) s
      e = ap (λ fs. key_ups w autogen_id to_flags keyboard_type fs s) (sym r.registered)

send_difference-Fired :
    (w : World) (autogen_id to_flags keyboard_type : ℕ) (s : State)
    → IsReady w s
    → Fired w to_flags s (send_difference w autogen_id to_flags keyboard_type s)
unfolding send_difference
send_difference-Fired w autogen_id to_flags keyboard_type s r =
    remove_numpad-Fired w to_flags s _ r λ r1.
      add_numpad-Fired w to_flags (remove_numpad w to_flags s) _
        (send_all-Fired w autogen_id to_flags keyboard_type (remove_numpad w to_flags s) r1)

same-Fired :
    (w : World) (to_flags : ℕ) (s : State)
    → IsReady w s
    → s.last_flags ≡ to_flags
    → Fired w to_flags s s
same-Fired w to_flags s r e =
    subst (λ flags. Fired w flags s s) e
      (record {
        agrees = λ f i k. refl;
        keys =
            sym (append-nil _)
            ∙ ap (λ l. sent_keys s.queue ++ (map key_code l ++ map key_code l)) (sym nothing);
        ready = r;
      })
  where
    key_code : ℕ → ℕ
    key_code f = get_key_code w.pairs f KeyCodeType.keycode

    nothing : filter_by (differs w s.last_flags s.last_flags) (modifier_flags w.pairs) ≡ []
    nothing = differs_self w s.last_flags (modifier_flags w.pairs)

-- `fire`, step by step.
fire-Fired :
    (w : World) (autogen_id to_flags keyboard_type : ℕ) (type : PhysicalEventType) (s : State)
    → IsReady w s
    → (type ≡ physical_down) ⊎ (s.is_ignore_physical_up_event ≡ false)
    → Fired w to_flags s (fire w autogen_id type to_flags keyboard_type s)
unfolding fire
fire-Fired w autogen_id to_flags keyboard_type physical_down s r h =
    elim (Bool-cases (s.last_flags == to_flags)) [
      | inl e ↦ rw e (same-Fired w to_flags s r ((==_iff s.last_flags to_flags).0 e))
      | inr ne ↦
          let s1 = record s { is_ignore_physical_up_event = false } in
          let f = send_difference-Fired w autogen_id to_flags keyboard_type s1 (record {
            registered = r.registered;
            distinct = r.distinct;
            no_numpad = r.no_numpad;
            consistent = r.consistent;
          }) in
          rw ne (record { agrees = f.agrees; keys = f.keys; ready = f.ready })
    ]
fire-Fired w autogen_id to_flags keyboard_type physical_up s r (inr k) =
    elim (Bool-cases (s.last_flags == to_flags)) [
      | inl e ↦ rw e (same-Fired w to_flags s r ((==_iff s.last_flags to_flags).0 e))
      | inr ne ↦ rw ne (
          subst
            (λ ignored.
              Fired w to_flags s
                (if ignored then s else send_difference w autogen_id to_flags keyboard_type s))
            (sym k) (send_difference-Fired w autogen_id to_flags keyboard_type s r))
    ]
fire-Fired w autogen_id to_flags keyboard_type physical_up s r (inl k) = cc (k)

filter_by-none :
    (p : ℕ → Bool) (fs : List ℕ)
    → ((f : ℕ) → is_include fs f ≡ true → p f ≡ false)
    → filter_by p fs ≡ []
filter_by-none p [] h = refl
filter_by-none p (f ∷ fs) h =
    rw (h f (ground (arith, ==_refl f))) (filter_by-none p fs λ g i. h g (ground (arith, i)))

-- What `fire` is to have done from `s` to `s'`.
pub record Fires (w : World) (to_flags : ℕ) (s s' : State) : Type 0 where
  pub none_to_release : modifier_keys w (differs w s'.last_flags to_flags) ≡ []
  pub none_to_press : modifier_keys w (differs w to_flags s'.last_flags) ≡ []
  pub keys :
      sent_keys s'.queue
      ≡ sent_keys s.queue
        ++ (modifier_keys w (differs w s.last_flags to_flags)
            ++ modifier_keys w (differs w to_flags s.last_flags))
  pub ready : IsReady w s'

Fired-Fires :
    (w : World) (to_flags : ℕ) (s s' : State) → Fired w to_flags s s' → Fires w to_flags s s'
Fired-Fires w to_flags s s' f = record {
  none_to_release = ap (map key_code) (
      filter_by-none _ (modifier_flags w.pairs) λ m i. elim (Bool-cases (is_skipped w.pairs m)) [
        | inl skip ↦ ground (arith, skip)
        | inr keep ↦ ground (arith, keep, f.agrees m i keep)
      ]);
  none_to_press = ap (map key_code) (
      filter_by-none _ (modifier_flags w.pairs) λ m i. elim (Bool-cases (is_skipped w.pairs m)) [
        | inl skip ↦ ground (arith, skip)
        | inr keep ↦ ground (arith, keep, f.agrees m i keep)
      ]);
  keys = f.keys;
  ready = f.ready;
}
  where
    key_code : ℕ → ℕ
    key_code m = get_key_code w.pairs m KeyCodeType.keycode

-- Unless the modifier events of key ups are ignored, and this is one, `fire` leaves no modifier of the
-- table that it does not skip in which the last flags and the wanted flags differ. It sends one event for each modifier
-- of the table that differs, in the order of the table: first those that the last flags have and the
-- wanted flags have not, and then the others. The modifiers of the table are different, the numpad
-- flag is not one of them, and the global `FlagStatus` has an item for each.
pub fire_lem :
    (w : World) (autogen_id to_flags keyboard_type : ℕ) (type : PhysicalEventType) (s : State)
    → IsReady w s
    → (type ≡ physical_down) ⊎ (s.is_ignore_physical_up_event ≡ false)
    → Fires w to_flags s (fire w autogen_id type to_flags keyboard_type s)
fire_lem w autogen_id to_flags keyboard_type type s r h =
    Fired-Fires w to_flags s _ (fire-Fired w autogen_id to_flags keyboard_type type s r h)
