-- ===== src/DeltaBuffer.antt =====
-- `DeltaBuffer` of core/kext/Classes/DeltaBuffer.hpp: the last five moves of a pointing device in one
-- direction. The array `buffer_` of `BUFFER_LENGTH` 5 is five fields.
pub mod Window
use karabiner_cn.Base.{ℕ, suc, ◌+◌, Bool, true, false, ◌&&◌, ◌||◌, if◌then◌else◌, ltb, leb}
use karabiner_cn.Base.Int.{ℤ, pos, negsuc, is_pos, neg_part, ◌+ℤ◌}

pub record DeltaBuffer : Type 0 where
  pub buffer0 : ℤ
  pub buffer1 : ℤ
  pub buffer2 : ℤ
  pub buffer3 : ℤ
  pub buffer4 : ℤ
  pub count : ℕ
  pub sign : ℤ

abbrev pub is_neg : ℤ → Bool
is_neg a = ltb 0 (neg_part a)

-- `clear`, which is the constructor too.
unfoldable pub cleared : DeltaBuffer
cleared = record {
  buffer0 = pos 0;
  buffer1 = pos 0;
  buffer2 = pos 0;
  buffer3 = pos 0;
  buffer4 = pos 0;
  count = 0;
  sign = pos 0;
}

-- The test of `push` for a change of direction.
abbrev pub turns : ℤ → ℤ → Bool
turns newval sign = is_pos newval && is_neg sign || is_neg newval && is_pos sign

-- `push` behind that test.
unfoldable pub shift_in : ℤ → DeltaBuffer → DeltaBuffer
shift_in newval b = record {
  buffer0 = b.buffer1;
  buffer1 = b.buffer2;
  buffer2 = b.buffer3;
  buffer3 = b.buffer4;
  buffer4 = newval;
  count = if ltb b.count 5 then suc b.count else b.count;
  sign = if is_neg newval then negsuc 0 else if is_pos newval then pos 1 else b.sign;
}

unfoldable pub push : ℤ → DeltaBuffer → DeltaBuffer
unfolding cleared shift_in
push newval b = if turns newval b.sign then shift_in newval cleared else shift_in newval b

unfoldable pub is_full : DeltaBuffer → Bool
is_full b = leb 5 b.count

unfoldable pub sum : DeltaBuffer → ℤ
unfolding ◌+ℤ◌
sum b = pos 0 +ℤ b.buffer0 +ℤ b.buffer1 +ℤ b.buffer2 +ℤ b.buffer3 +ℤ b.buffer4
