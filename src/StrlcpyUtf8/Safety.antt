-- ===== src/StrlcpyUtf8/Safety.antt =====
-- `strlcpy` of lib/strlcpy_utf8/strlcpy_utf8.hpp ends on every string, of whole characters or not.
use karabiner_cn.Base.{
  ℕ, zero, suc, ◌+◌, ◌-◌, ◌≤◌, ◌<◌, ◌≡◌, List, some, length, take, Option-cases, inl, inr, arith,
}
use karabiner_cn.Base.Returns.{Returns, some-Returns, Returns-bind}
use karabiner_cn.StrlcpyUtf8.{char_length, scan, strlcpy, byte_at}

char_length_pos : (b k : ℕ) → char_length b ≡ some k → 0 < k
unfolding char_length
char_length_pos b k h = ground arith

-- Each turn goes on by a byte at least.
scan_total :
    (n : ℕ) (dst : List ℕ) (i : ℕ)
    → length dst + 1 < n + i
    → i ≤ length dst
    → Returns (scan n dst i)
unfolding scan
scan_total zero dst i h le = absurd (omega arith)
scan_total (suc n) dst i h le = elim (Option-cases (char_length (byte_at dst i))) [
  | inl e ↦ ground (arith, e)
  | inr (k, e) ↦ ground (arith, e, char_length_pos (byte_at dst i) k e, scan_total n dst (i + k))
]

pub strlcpy_total : (size : ℕ) (src : List ℕ) → Returns (strlcpy size src)
unfolding strlcpy
strlcpy_total size src =
    Returns-bind (scan (length (take (size - 1) src) + 2) (take (size - 1) src) 0) _
      (scan_total (length (take (size - 1) src) + 2) (take (size - 1) src) 0 (omega arith)
        (omega arith))
      λ previous e. some-Returns (take previous (take (size - 1) src))
