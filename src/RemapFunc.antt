-- ===== src/RemapFunc.antt =====
-- Processors of rules, core/kext/RemapFunc, and what they share. The helper of those that cancel
-- events of the output queue is
-- core/kext/RemapFunc/common/CancelEventOutputQueueItemsHelper.hpp.
pub mod DropAllKeys
pub mod DropKeyAfterRemap
use karabiner_cn.Base.{
  ℕ, ◌+◌, Bool, true, false, not, ◌&&◌, List, [], ◌∷◌, ◌++◌, ◌==◌, ltb, if◌then◌else◌, is_include,
}

-- `THRESHOLD`.
abbrev threshold : ℕ
threshold = 10

-- The first loop of `registerSerialNumber`: old values become 0, which is an unused place.
unfoldable pub unregister_old : ℕ → List ℕ → List ℕ
unregister_old sn [] = []
unregister_old sn (x ∷ xs) =
    (if not (x == 0) && ltb (x + threshold) sn then 0 else x) ∷ unregister_old sn xs

-- The second one, and the push behind it: an unused place is taken, or the vector grows.
unfoldable pub register : ℕ → List ℕ → List ℕ
register sn [] = sn ∷ []
register sn (x ∷ xs) = let rest = register sn xs in if x == 0 then sn ∷ xs else x ∷ rest

-- `registerSerialNumber`, for the current serial number.
unfoldable pub register_serial_number : ℕ → List ℕ → List ℕ
unfolding unregister_old register
register_serial_number sn targets =
    if is_include targets sn then targets else register sn (unregister_old sn targets)
