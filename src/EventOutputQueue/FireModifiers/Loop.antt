-- ===== src/EventOutputQueue/FireModifiers/Loop.antt =====
-- One loop of `FireModifiers::fire` (core/kext/Classes/EventOutputQueue.cpp): what it sends, and the
-- last flags behind it.
use karabiner_cn.Base.{
  ℕ, ◌≡◌, ◌≢◌, refl, sym, ap, subst, ◌∙◌, inl, inr, Bool, true, false, not, ◌&&◌, ◌||◌, List, [],
  ◌∷◌, ◌++◌, ◌==◌, ==_iff, if◌then◌else◌, map, is_include, IsDistinct, filter_by, filter_by_congr,
  arith, Bool-cases, append_assoc, append-nil, map-append,
}
use karabiner_cn.Flags
use karabiner_cn.Flags.Consistent.{IsConsistent}
use karabiner_cn.KeyCodeModifierFlagPairs.{Pair, KeyCodeType, get_key_code, modifier_flags}
use karabiner_cn.ModifierFlag.{get_raw_bits}
use karabiner_cn.Params.{keyboard, make_keyboard_event}
use karabiner_cn.EventOutputQueue.{State, World, Item, push, push_to_output_queue, clears_sticky}
use karabiner_cn.EventOutputQueue.FireModifiers.{is_skipped, send_modifier, send_loop}

-- The keys of the keyboard events in the queue, in order.
unfoldable pub sent_keys : List Item → List ℕ
sent_keys [] = []
sent_keys (i ∷ is) = elim i.params [ keyboard p ↦ p.key ∷ sent_keys is | _ ↦ sent_keys is ]

-- Between two states of a loop: what has been sent, and that nothing but the last flags has changed
-- that the loops read.
pub record Sends (w : World) (s s' : State) (sent : List ℕ) : Type 0 where
  pub keys :
      sent_keys s'.queue
      ≡ sent_keys s.queue ++ map (λ f. get_key_code w.pairs f KeyCodeType.keycode) sent
  pub flag_status : s'.flag_status ≡ s.flag_status

sent_keys-append : (xs ys : List Item) → sent_keys (xs ++ ys) ≡ sent_keys xs ++ sent_keys ys
unfolding sent_keys
sent_keys-append [] ys = refl
sent_keys-append (x ∷ xs) ys = ground (arith, sent_keys-append xs ys)

module _ (w : World) (autogen_id keyboard_type : ℕ) where
  last_flags-send_modifier :
      (flag flags : ℕ) (s : State)
      → (send_modifier w autogen_id keyboard_type flag flags s).last_flags ≡ flags
  unfolding send_modifier push push_to_output_queue clears_sticky make_keyboard_event
  last_flags-send_modifier flag flags s = ground arith

  send_modifier-Sends :
      (flag flags : ℕ) (s : State)
      → Sends w s (send_modifier w autogen_id keyboard_type flag flags s) (flag ∷ [])
  unfolding send_modifier push push_to_output_queue clears_sticky make_keyboard_event sent_keys
  send_modifier-Sends flag flags s = record {
    keys = sent_keys-append s.queue _;
    flag_status = refl;
  }

pub Sends-trans :
    (w : World) (s s1 s2 : State) (xs ys : List ℕ)
    → Sends w s s1 xs
    → Sends w s1 s2 ys
    → Sends w s s2 (xs ++ ys)
Sends-trans w s s1 s2 xs ys h k = record {
  keys =
      k.keys
      ∙ ap (λ l. l ++ map (λ f. get_key_code w.pairs f KeyCodeType.keycode) ys) h.keys
      ∙ append_assoc (sent_keys s.queue) _ _
      ∙ ap (λ l. sent_keys s.queue ++ l) (sym (map-append _ xs ys));
  flag_status = k.flag_status ∙ h.flag_status;
}

abbrev pub same : Bool → Bool → Bool
same b x = if b then x else not x

pub other_flag :
    (f : ℕ) (rest : List ℕ) (g : ℕ)
    → is_include rest f ≡ false
    → is_include rest g ≡ true
    → (g == f) ≡ false
other_flag f rest g out i = elim (Bool-cases (g == f)) [
  | inl e ↦
      let i' : is_include rest f ≡ true =
        subst (λ x. is_include rest x ≡ true) ((==_iff g f).0 e) i in
      cc (out)
  | inr e ↦ e
]

pub raw_of_kept : (pairs : List Pair) (f : ℕ) → is_skipped pairs f ≡ false → get_raw_bits f ≢ 0
unfolding is_skipped
raw_of_kept pairs f e = ground (arith, e)

-- Behind a loop that switches modifiers on (`b`) or off.
module _ (w : World) (to_flags : ℕ) (b : Bool) (passes : ℕ → ℕ → Bool) where
  -- Whether the loop has to send the modifier, by the flags before it.
  abbrev pub needed : State → ℕ → Bool
  needed s f = not (passes s.last_flags f)

  pub record Passed (s s' : State) (flags : List ℕ) : Type 0 where
    pub consistent : IsConsistent (modifier_flags w.pairs) s'.last_flags
    pub on :
        (f : ℕ)
        → get_raw_bits f ≢ 0
        → is_include (modifier_flags w.pairs) f ≡ true
        → Flags.is_on s'.last_flags f ≡ (
            if is_include flags f && not (is_skipped w.pairs f) && same b (Flags.is_on to_flags f)
            then b
            else Flags.is_on s.last_flags f)
    pub sends : Sends w s s' (filter_by (needed s) flags)

-- One loop: it switches modifiers on (`b`) or off where the wanted flags do.
module _ (w : World) (autogen_id keyboard_type to_flags : ℕ) (b : Bool) (passes : ℕ → ℕ → Bool)
    (change : ℕ → ℕ → ℕ)
    (passes_lem : (last f : ℕ)
      → passes last f ≡ (
          is_skipped w.pairs f
          || not (same b (Flags.is_on to_flags f))
          || same b (Flags.is_on last f)))
    (is_on-change : (value m f : ℕ)
      → IsConsistent (modifier_flags w.pairs) value
      → get_raw_bits m ≢ 0
      → get_raw_bits f ≢ 0
      → is_include (modifier_flags w.pairs) f ≡ true
      → Flags.is_on (change value m) f ≡ (if f == m then b else Flags.is_on value f))
    (change-IsConsistent : (value m : ℕ)
      → IsConsistent (modifier_flags w.pairs) value
      → get_raw_bits m ≢ 0
      → IsConsistent (modifier_flags w.pairs) (change value m)) where
  raw_of_needed : (s : State) (f : ℕ) → passes s.last_flags f ≡ false → get_raw_bits f ≢ 0
  unfolding is_skipped
  raw_of_needed s f e = ground (arith, passes_lem s.last_flags f)

  -- A change of one modifier is not seen by the test for another one.
  passes-change :
      (s : State) (f g : ℕ)
      → IsConsistent (modifier_flags w.pairs) s.last_flags
      → get_raw_bits f ≢ 0
      → is_include (modifier_flags w.pairs) g ≡ true
      → (g == f) ≡ false
      → passes (change s.last_flags f) g ≡ passes s.last_flags g
  passes-change s f g c hf i ne = elim (Bool-cases (is_skipped w.pairs g)) [
    | inl skip ↦
        ground (arith, passes_lem (change s.last_flags f) g, passes_lem s.last_flags g, skip)
    | inr keep ↦ ground (
      arith,
      passes_lem (change s.last_flags f) g,
      passes_lem s.last_flags g,
      is_on-change s.last_flags f g c hf (raw_of_kept w.pairs g keep) i,
    )
  ]

  pub send_loop-Passed :
      (flags : List ℕ) (s : State)
      → IsDistinct flags
      → ((f : ℕ) → is_include flags f ≡ true → is_include (modifier_flags w.pairs) f ≡ true)
      → IsConsistent (modifier_flags w.pairs) s.last_flags
      → Passed w to_flags b passes s
          (send_loop w autogen_id keyboard_type passes change flags s)
          flags
  unfolding send_loop
  send_loop-Passed [] s d sub c = record {
    consistent = c;
    on = λ f h i. refl;
    sends = record { keys = sym (append-nil _); flag_status = refl };
  }
  send_loop-Passed (f ∷ rest) s d sub c = elim (Bool-cases (passes s.last_flags f)) [
    | inl pass ↦
        let ih = send_loop-Passed rest s d.1 (λ g i. sub g (ground (arith, i))) c in
        rw pass (record {
          consistent = ih.consistent;
          on = λ g h i. on_passed g (ih.on g h i) pass;
          sends = rw pass ih.sends;
        })
    | inr send ↦
        let s1 = send_modifier w autogen_id keyboard_type f (change s.last_flags f) s in
        let raw = raw_of_needed s f send in
        let last =
          last_flags-send_modifier w autogen_id keyboard_type f (change s.last_flags f) s in
        let ih =
          send_loop-Passed rest s1 d.1 (λ g i. sub g (ground (arith, i)))
            (subst (IsConsistent (modifier_flags w.pairs)) (sym last)
              (change-IsConsistent s.last_flags f c raw)) in
        rw send (record {
          consistent = ih.consistent;
          on = λ g h i. on_sent g (ih.on g h i) send (is_on-change s.last_flags f g c raw h i);
          sends = rw send (
              subst
                (λ l.
                  Sends w s (send_loop w autogen_id keyboard_type passes change rest s1) (f ∷ l))
                (still raw)
                (Sends-trans w s s1 _ (f ∷ []) _
                  (send_modifier-Sends w autogen_id keyboard_type f (change s.last_flags f) s)
                  ih.sends));
        })
  ]
    where
      on_passed :
          (g : ℕ) {o : Bool}
          → o ≡ (
              if is_include rest g && not (is_skipped w.pairs g) && same b (Flags.is_on to_flags g)
              then b
              else Flags.is_on s.last_flags g)
          → passes s.last_flags f ≡ true
          → o ≡ (
              if is_include (f ∷ rest) g
                && not (is_skipped w.pairs g)
                && same b (Flags.is_on to_flags g)
              then b
              else Flags.is_on s.last_flags g)
      on_passed g e pass = ground (arith, e, pass, passes_lem s.last_flags f, ==_iff f g)

      on_sent :
          (g : ℕ) {o : Bool}
          → o ≡ (
              if is_include rest g && not (is_skipped w.pairs g) && same b (Flags.is_on to_flags g)
              then b
              else Flags.is_on (change s.last_flags f) g)
          → passes s.last_flags f ≡ false
          → Flags.is_on (change s.last_flags f) g
            ≡ (if g == f then b else Flags.is_on s.last_flags g)
          → o ≡ (
              if is_include (f ∷ rest) g
                && not (is_skipped w.pairs g)
                && same b (Flags.is_on to_flags g)
              then b
              else Flags.is_on s.last_flags g)
      on_sent g e send changed =
          ground (arith, e, send, changed, passes_lem s.last_flags f, ==_iff f g, d.0)

      still :
          get_raw_bits f ≢ 0
          → filter_by (λ g. not (passes (change s.last_flags f) g)) rest
            ≡ filter_by (needed w to_flags b passes s) rest
      still raw = filter_by_congr _ _ rest λ g i.
          ap not (passes-change s f g c raw (sub g (ground (arith, i))) (other_flag f rest g d.0 i))
