-- ===== src/StrlcpyUtf8/Utf8.antt =====
-- The shape of the characters of UTF-8, for the first bytes that the loop of `strlcpy`
-- (lib/strlcpy_utf8/strlcpy_utf8.hpp) looks at.
use karabiner_cn.Base.{
  ℕ, zero, suc, ◌≤◌, ◌<◌, ◌≡◌, refl, ap, ◌∙◌, List, [], ◌∷◌, none, some, Bool, true, false, ◌&&◌,
  &&_elim, Option, ◌==◌, ==_iff, ltb, if◌then◌else◌, length, All, arith, Bool-cases, inl, inr,
}
use karabiner_cn.StrlcpyUtf8.{char_length}

-- A byte behind the first one of a character: 10xxxxxx.
abbrev pub IsContinuation : ℕ → Type 0
IsContinuation c = (0x80 ≤ c) × (c < 0xC0)

-- The bytes of a character of UTF-8: one byte 0xxxxxxx, or a byte 110xxxxx, 1110xxxx or 11110xxx with
-- one, two or three bytes behind it.
pub data IsWhole : List ℕ → Type 0 where
  one : (b : ℕ) → b < 0x80 → IsWhole (b ∷ [])
  two : (b c : ℕ) → 0xC0 ≤ b → b < 0xE0 → IsContinuation c → IsWhole (b ∷ c ∷ [])
  three :
      (b c d : ℕ)
      → 0xE0 ≤ b
      → b < 0xF0
      → IsContinuation c
      → IsContinuation d
      → IsWhole (b ∷ c ∷ d ∷ [])
  four :
      (b c d e : ℕ)
      → 0xF0 ≤ b
      → b < 0xF8
      → IsContinuation c
      → IsContinuation d
      → IsContinuation e
      → IsWhole (b ∷ c ∷ d ∷ e ∷ [])

-- How many bytes begin with a first byte.
abbrev lead_length : ℕ → Option ℕ
lead_length b =
    if ltb b 0x80
    then some 1
    else if ltb b 0xC0
    then none
    else if ltb b 0xE0
    then some 2
    else if ltb b 0xF0
    then some 3
    else if ltb b 0xF8
    then some 4
    else none

unfoldable same_number : Option ℕ → Option ℕ → Bool
same_number none none = true
same_number (some a) (some b) = a == b
same_number a b = false

same_number_lem : (a b : Option ℕ) → same_number a b ≡ true → a ≡ b
unfolding same_number
same_number_lem none none e = refl
same_number_lem (some a) (some b) e = ap some ((==_iff a b).0 e)
same_number_lem none (some b) e = cc
same_number_lem (some a) none e = cc

-- The loop agrees with this for every number below a bound.
unfoldable agrees_below : ℕ → Bool
unfolding char_length same_number
agrees_below zero = true
agrees_below (suc n) = same_number (char_length n) (lead_length n) && agrees_below n

agrees_at :
    (n b : ℕ) → agrees_below n ≡ true → b < n → same_number (char_length b) (lead_length b) ≡ true
unfolding agrees_below
agrees_at zero b e h = absurd (omega arith)
agrees_at (suc n) b e h = elim (Bool-cases (b == n)) [
  | inl same ↦ rw ((==_iff b n).0 same) (&&_elim _ _ e).0
  | inr other ↦ agrees_at n b (&&_elim _ _ e).1 (ground arith)
]

agrees_on_bytes : agrees_below 256 ≡ true
unfolding agrees_below char_length same_number
agrees_on_bytes = refl

char_length-lead : (b : ℕ) → b < 256 → char_length b ≡ lead_length b
char_length-lead b h = same_number_lem _ _ (agrees_at 256 b agrees_on_bytes h)

-- As the loop sees it: the first byte says how many the bytes are.
abbrev pub IsHeaded : List ℕ → Type 0
IsHeaded [] = ⊥
IsHeaded (b ∷ bs) = char_length b ≡ some (length (b ∷ bs))

IsWhole-IsHeaded : (bs : List ℕ) → IsWhole bs → IsHeaded bs
IsWhole-IsHeaded _ (one b h) = char_length-lead b (omega arith) ∙ ground arith
IsWhole-IsHeaded _ (two b c lo hi p) = char_length-lead b (omega arith) ∙ ground arith
IsWhole-IsHeaded _ (three b c d lo hi p q) = char_length-lead b (omega arith) ∙ ground arith
IsWhole-IsHeaded _ (four b c d e lo hi p q r) = char_length-lead b (omega arith) ∙ ground arith

pub all_IsHeaded : (cs : List (List ℕ)) → All IsWhole cs → All IsHeaded cs
all_IsHeaded [] h = tt
all_IsHeaded (c ∷ cs) h = (IsWhole-IsHeaded c h.0, all_IsHeaded cs h.1)
