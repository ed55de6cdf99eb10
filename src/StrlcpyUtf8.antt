-- ===== src/StrlcpyUtf8.antt =====
-- `pqrs::strlcpy_utf8::strlcpy` of lib/strlcpy_utf8/strlcpy_utf8.hpp: a bounded copy that does not
-- leave half a character at the end. A C string is the list of its bytes before the terminator.
pub mod Utf8
pub mod Whole
pub mod Safety
use karabiner_cn.Base.{
  ℕ, zero, suc, ◌+◌, ◌-◌, Bool, true, false, List, [], ◌∷◌, Option, none, some, ◌==◌, ltb,
  if◌then◌else◌, length, take, get_elem?, bit_and,
}

-- How far the loop goes on for a first byte; none where it breaks.
unfoldable pub char_length : ℕ → Option ℕ
char_length b =
    if bit_and b 0x80 == 0
    then some 1
    else if bit_and b 0xe0 == 0xc0
    then some 2
    else if bit_and b 0xf0 == 0xe0
    then some 3
    else if bit_and b 0xf8 == 0xf0
    then some 4
    else none

-- `dst[i]`, for an index up to the terminator.
abbrev pub byte_at : List ℕ → ℕ → ℕ
byte_at dst i = elim (get_elem? dst i) [ none ↦ 0 | some b ↦ b ]

-- The loop, on fuel: `previous` where it breaks.
unfoldable pub scan : ℕ → List ℕ → ℕ → Option ℕ
unfolding char_length
scan zero dst i = none
scan (suc n) dst i = elim (char_length (byte_at dst i)) [
  | none ↦ some i
  | some k ↦ elim (ltb (length dst) (i + k)) [ true ↦ some i | false ↦ scan n dst (i + k) ]
]

-- The copy, for a `size` that is not 0. A turn for each byte, one for the terminator and one more.
unfoldable pub strlcpy : ℕ → List ℕ → Option (List ℕ)
unfolding scan
strlcpy size src =
    let dst = take (size - 1) src in
    elim (scan (length dst + 2) dst 0) [ none ↦ none | some previous ↦ some (take previous dst) ]
