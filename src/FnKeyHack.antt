-- ===== src/FnKeyHack.antt =====
-- `KeyCode::FNKeyHack`, `KeyCode::normalizeKey` and `KeyCode::reverseNormalizeKey` of
-- core/kext/KeyCode.hpp and KeyCode.cpp: keys that the hardware sends while fn is held (page up and
-- its kin) become the keys that are printed on them, and become themselves again on output.
-- A reference argument of the source is an argument and a result.
pub mod Laws
pub mod Numpad
use karabiner_cn.Base.{
  ℕ, Bool, true, false, List, [], ◌∷◌, ◌==◌, ◌||◌, not, if◌then◌else◌, is_include,
}
use karabiner_cn.EventType.{is_key_down_or_modifier_down}
use karabiner_cn.Flags
use karabiner_cn.KeyCode
use karabiner_cn.KeyCodeModifierFlagPairs.{Pair, modifier_flags}
use karabiner_cn.ModifierFlag

pub record Hack : Type 0 where
  pub from_key_code : ℕ
  pub to_key_code : ℕ
  pub active_normalize : Bool
  pub active_reverse : Bool

-- `remap`: the returned truth value, the key and `active`.
unfoldable pub remap : List Pair → ℕ → ℕ → ℕ → Bool → ℕ → ℕ → Bool × ℕ × Bool
unfolding is_key_down_or_modifier_down Flags.is_on
remap pairs key flags event_type active from_key_code to_key_code =
    if not (key == from_key_code)
    then (false, key, active)
    else if is_key_down_or_modifier_down pairs event_type key flags
    then (if not (Flags.is_on flags ModifierFlag.fn)
        then (false, key, active)
        else (true, to_key_code, true))
    else if not active
    then (false, key, active)
    else (true, to_key_code, false)

-- `normalize` and `reverse`: each takes its own way through the two key codes and its own flag.
unfoldable pub normalize : List Pair → ℕ → ℕ → ℕ → Hack → Bool × ℕ × Hack
unfolding remap
normalize pairs key flags event_type h =
    let r = remap pairs key flags event_type h.active_normalize h.from_key_code h.to_key_code in
    (r.0, r.1, record h { active_normalize = r.2 })

unfoldable pub reverse : List Pair → ℕ → ℕ → ℕ → Hack → Bool × ℕ × Hack
unfolding remap
reverse pairs key flags event_type h =
    let r = remap pairs key flags event_type h.active_reverse h.to_key_code h.from_key_code in
    (r.0, r.1, record h { active_reverse = r.2 })

-- The array `fnkeyhack` as it is initialized.
abbrev make_hack : ℕ → ℕ → Hack
make_hack f t = record {
  from_key_code = f;
  to_key_code = t;
  active_normalize = false;
  active_reverse = false;
}

abbrev pub fnkeyhack : List Hack
fnkeyhack =
    make_hack KeyCode.pageup KeyCode.cursor_up
    ∷ make_hack KeyCode.pagedown KeyCode.cursor_down
    ∷ make_hack KeyCode.home KeyCode.cursor_left
    ∷ make_hack KeyCode.end KeyCode.cursor_right
    ∷ make_hack KeyCode.enter KeyCode.return
    ∷ make_hack KeyCode.forward_delete KeyCode.delete
    ∷ []

-- The loop over the array: it ends at the first entry that remaps the key.
unfoldable pub first_hack : (Hack → Bool × ℕ × Hack) → ℕ → List Hack → ℕ × List Hack
first_hack method key [] = (key, [])
first_hack method key (h ∷ hs) =
    let r = method h in
    let rest = first_hack method key hs in if r.0 then (r.1, r.2 ∷ hs) else (rest.0, r.2 ∷ rest.1)

-- `normalizeKey`: the key, the flags and the array.
unfoldable pub normalize_key : List Pair → ℕ → ℕ → ℕ → List Hack → ℕ × ℕ × List Hack
unfolding first_hack normalize
normalize_key pairs key flags event_type hacks =
    let flags = Flags.strip_numpad (modifier_flags pairs) flags in
    let r = first_hack (normalize pairs key flags event_type) key hacks in (r.0, flags, r.1)

-- The keys that get the numpad flag on output.
abbrev pub numpad_keys : List ℕ
numpad_keys =
    KeyCode.keypad_0 ∷ KeyCode.keypad_1 ∷ KeyCode.keypad_2 ∷ KeyCode.keypad_3 ∷ KeyCode.keypad_4
    ∷ KeyCode.keypad_5 ∷ KeyCode.keypad_6 ∷ KeyCode.keypad_7 ∷ KeyCode.keypad_8 ∷ KeyCode.keypad_9
    ∷ KeyCode.keypad_dot ∷ KeyCode.keypad_multiply ∷ KeyCode.keypad_plus ∷ KeyCode.keypad_slash
    ∷ KeyCode.keypad_minus ∷ KeyCode.keypad_equal ∷ []

abbrev pub cursor_keys : List ℕ
cursor_keys =
    KeyCode.cursor_up ∷ KeyCode.cursor_down ∷ KeyCode.cursor_left ∷ KeyCode.cursor_right ∷ []

-- `reverseNormalizeKey`.
unfoldable pub reverse_normalize_key : List Pair → ℕ → ℕ → ℕ → List Hack → ℕ × ℕ × List Hack
unfolding first_hack reverse Flags.add
reverse_normalize_key pairs key flags event_type hacks =
    let r = first_hack (reverse pairs key flags event_type) key hacks in
    let flags = Flags.strip_numpad (modifier_flags pairs) flags in
    let flags = if is_include numpad_keys r.0 then Flags.add flags ModifierFlag.numpad else flags in
    let flags = if is_include cursor_keys r.0 then Flags.add flags ModifierFlag.numpad else flags in
    (r.0, flags, r.1)

-- A keyboard event as these functions see it.
pub record KeyEvent : Type 0 where
  pub key : ℕ
  pub flags : ℕ
  pub event_type : ℕ

-- The array after `normalizeKey` of each event.
unfoldable pub run_normalize : List Pair → List KeyEvent → List Hack → List Hack
unfolding normalize_key
run_normalize pairs [] hacks = hacks
run_normalize pairs (e ∷ es) hacks =
    run_normalize pairs es (normalize_key pairs e.key e.flags e.event_type hacks).2

-- Each event goes through `normalizeKey` and then, with nothing remapped between, through
-- `reverseNormalizeKey`: the keys that come out, and the array.
unfoldable pub run_both : List Pair → List KeyEvent → List Hack → List ℕ × List Hack
unfolding normalize_key reverse_normalize_key
run_both pairs [] hacks = ([], hacks)
run_both pairs (e ∷ es) hacks =
    let n = normalize_key pairs e.key e.flags e.event_type hacks in
    let r = reverse_normalize_key pairs n.0 n.1 e.event_type n.2 in
    let rest = run_both pairs es r.2 in (r.0 ∷ rest.0, rest.1)
