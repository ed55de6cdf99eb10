-- ===== src/FnKeyHack/Laws.antt =====
-- The two directions of the fn key hack (core/kext/KeyCode.cpp) undo each other, and a key up is
-- mapped as the key down before it was.
use karabiner_cn.Base.{
  IsDistinct, ℕ, ◌≡◌, refl, sym, subst, ap₂, ◌∙◌, ◌≢◌, ◌⊎◌, inl, Bool, true, false, ◌&&◌, List, [],
  ◌∷◌, ◌==◌, arith, if◌then◌else◌, is_include, any_of, All,
}
use karabiner_cn.EventType
use karabiner_cn.EventType.{is_key_down_or_modifier_down}
use karabiner_cn.Flags
use karabiner_cn.KeyCodeModifierFlagPairs.{Pair, modifier_flags}
use karabiner_cn.ModifierFlag
use karabiner_cn.ModifierFlag.{get_raw_bits}
use karabiner_cn.FnKeyHack.{
  Hack, remap, normalize, reverse, first_hack, normalize_key, reverse_normalize_key, KeyEvent,
  run_normalize, run_both,
}

-- The key that a key up of k is mapped to.
abbrev up_key : ℕ → List Hack → ℕ
up_key k [] = k
up_key k (h ∷ hs) =
    if k == h.from_key_code && h.active_normalize then h.to_key_code else up_key k hs

abbrev pub is_active : ℕ → List Hack → Bool
is_active k = any_of λ h. k == h.from_key_code && h.active_normalize

normalize-up :
    (pairs : List Pair) (k flags : ℕ) (hs : List Hack)
    → (first_hack (normalize pairs k flags EventType.up) k hs).0 ≡ up_key k hs
unfolding first_hack normalize remap is_key_down_or_modifier_down
normalize-up pairs k flags [] = refl
normalize-up pairs k flags (h ∷ hs) = ground (arith, normalize-up pairs k flags hs)

normalize-down :
    (pairs : List Pair) (k flags : ℕ) (hs : List Hack)
    → is_active k hs ≡ false
    → let r = first_hack (normalize pairs k flags EventType.down) k hs in up_key k r.1 ≡ r.0
unfolding first_hack normalize remap is_key_down_or_modifier_down
normalize-down pairs k flags [] off = refl
normalize-down pairs k flags (h ∷ hs) off =
    ground (arith, normalize-down pairs k flags hs (ground arith))

normalize-other :
    (pairs : List Pair) (k key flags event_type : ℕ) (hs : List Hack)
    → k ≢ key
    → up_key k (first_hack (normalize pairs key flags event_type) key hs).1 ≡ up_key k hs
unfolding first_hack normalize remap
normalize-other pairs k key flags event_type [] ne = refl
normalize-other pairs k key flags event_type (h ∷ hs) ne =
    ground (arith, normalize-other pairs k key flags event_type hs ne)

run_normalize-other :
    (pairs : List Pair) (k : ℕ) (es : List KeyEvent) (hs : List Hack)
    → All (λ e. k ≢ e.key) es
    → up_key k (run_normalize pairs es hs) ≡ up_key k hs
unfolding run_normalize normalize_key
run_normalize-other pairs k [] hs ne = refl
run_normalize-other pairs k (e ∷ es) hs ne =
    run_normalize-other pairs k es _ ne.1
    ∙ normalize-other pairs k e.key (Flags.strip_numpad (modifier_flags pairs) e.flags) e.event_type
        hs ne.0

-- From a state in which no entry for the key is active, a key up is normalized to the same key as
-- the key down before it, whatever the flags of the two are and whatever events of other keys
-- come between them.
pub normalize_key-up_as_down :
    (pairs : List Pair) (k flags flags_up : ℕ) (es : List KeyEvent) (hs : List Hack)
    → is_active k hs ≡ false
    → All (λ e. k ≢ e.key) es
    → let pressed = normalize_key pairs k flags EventType.down hs in
      (normalize_key pairs k flags_up EventType.up (run_normalize pairs es pressed.2)).0 ≡ pressed.0
unfolding normalize_key
normalize_key-up_as_down pairs k flags flags_up es hs off ne =
    normalize-up pairs k (Flags.strip_numpad (modifier_flags pairs) flags_up) _
    ∙ run_normalize-other pairs k es _ ne
    ∙ normalize-down pairs k (Flags.strip_numpad (modifier_flags pairs) flags) hs off

-- No two entries have the same key to map to, and no entry has its two flags apart.
abbrev pub InSync : List Hack → Type 0
InSync = All λ h. h.active_normalize ≡ h.active_reverse

abbrev pub to_keys : List Hack → List ℕ
to_keys [] = []
to_keys (h ∷ hs) = h.to_key_code ∷ to_keys hs

abbrev pub IsDownOrUp : ℕ → Type 0
IsDownOrUp event_type = (event_type ≡ EventType.down) ⊎ (event_type ≡ EventType.up)

-- A normalized key is the key itself or one that some entry maps to.
normalize-range :
    (pairs : List Pair) (key flags event_type : ℕ) (hs : List Hack)
    → let r = first_hack (normalize pairs key flags event_type) key hs in
      (r.0 ≡ key) ⊎ (is_include (to_keys hs) r.0 ≡ true)
unfolding first_hack normalize remap
normalize-range pairs key flags event_type [] = inl refl
normalize-range pairs key flags event_type (h ∷ hs) =
    ground (arith, normalize-range pairs key flags event_type hs)

normalize-to_keys :
    (pairs : List Pair) (key flags event_type : ℕ) (hs : List Hack)
    → to_keys (first_hack (normalize pairs key flags event_type) key hs).1 ≡ to_keys hs
unfolding first_hack normalize remap
normalize-to_keys pairs key flags event_type [] = refl
normalize-to_keys pairs key flags event_type (h ∷ hs) =
    ground (arith, normalize-to_keys pairs key flags event_type hs)

reverse-to_keys :
    (pairs : List Pair) (key flags event_type : ℕ) (hs : List Hack)
    → to_keys (first_hack (reverse pairs key flags event_type) key hs).1 ≡ to_keys hs
unfolding first_hack reverse remap
reverse-to_keys pairs key flags event_type [] = refl
reverse-to_keys pairs key flags event_type (h ∷ hs) =
    ground (arith, reverse-to_keys pairs key flags event_type hs)

-- What the reverse direction does to the normalized key, entry by entry.
reverse-normalize :
    (pairs : List Pair) (key flags flags' event_type : ℕ) (hs : List Hack)
    → IsDownOrUp event_type
    → Flags.is_on flags' ModifierFlag.fn ≡ Flags.is_on flags ModifierFlag.fn
    → IsDistinct (to_keys hs)
    → is_include (to_keys hs) key ≡ false
    → InSync hs
    → let n = first_hack (normalize pairs key flags event_type) key hs in
      let r = first_hack (reverse pairs n.0 flags' event_type) n.0 n.1 in (r.0 ≡ key) × InSync r.1
unfolding first_hack normalize reverse remap is_key_down_or_modifier_down
reverse-normalize pairs key flags flags' event_type [] t f d i s = (refl, tt)
reverse-normalize pairs key flags flags' event_type (h ∷ hs) t f d i s =
    let rest = reverse-normalize pairs key flags flags' event_type hs t f d.1 (ground arith) s.1 in
    ground (arith, rest, normalize-range pairs key flags event_type hs, d.0, s.0)

abbrev pub IsOrdinary : List Hack → KeyEvent → Type 0
IsOrdinary hs e = IsDownOrUp e.event_type × (is_include (to_keys hs) e.key ≡ false)

abbrev pub event_keys : List KeyEvent → List ℕ
event_keys [] = []
event_keys (e ∷ es) = e.key ∷ event_keys es

-- Down and up events whose keys are not keys that an entry maps to come out of `normalizeKey`
-- followed by `reverseNormalizeKey` with the keys that they went in with, each in turn, from an
-- array whose keys to map to are distinct and whose two flags agree in each entry. The flags of
-- each entry agree behind the events too.
pub run_both_lem :
    (pairs : List Pair) (es : List KeyEvent) (hs : List Hack)
    → IsDistinct (to_keys hs)
    → InSync hs
    → All (IsOrdinary hs) es
    → ((run_both pairs es hs).0 ≡ event_keys es) × InSync (run_both pairs es hs).1
unfolding run_both normalize_key reverse_normalize_key
run_both_lem pairs [] hs d s o = (refl, s)
run_both_lem pairs (e ∷ es) hs d s o =
    let flags = Flags.strip_numpad (modifier_flags pairs) e.flags in
    let n = first_hack (normalize pairs e.key flags e.event_type) e.key hs in
    let r = first_hack (reverse pairs n.0 flags e.event_type) n.0 n.1 in
    let same : to_keys r.1 ≡ to_keys hs =
      reverse-to_keys pairs n.0 flags e.event_type n.1
      ∙ normalize-to_keys pairs e.key flags e.event_type hs in
    let here = reverse-normalize pairs e.key flags flags e.event_type hs o.0.0 refl d o.0.1 s in
    let later = run_both_lem pairs es r.1 (subst IsDistinct (sym same) d) here.1 (
      subst (λ ks. All (λ x. IsDownOrUp x.event_type × (is_include ks x.key ≡ false)) es) (sym same)
        o.1) in
    (ap₂ ◌∷◌ here.0 later.0, later.1)
