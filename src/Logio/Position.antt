-- ===== src/Logio/Position.antt =====
-- LogPos of io/logio/logio.h. The three int32_t members are integers; the arithmetic on them
-- (`Decrement`, `operator-`) stays within the range that their types hold.
pub mod Order
mod Tests
use whisperlib.Prelude.{
  Bool, true, false, not, ◌&&◌, ◌||◌, if◌then◌else◌, ℤ, pos, negsuc, ◌-ℤ◌, ltb_ℤ, eqb_ℤ,
}

pub record LogPos : Type 0 where
  pub file_num : ℤ
  pub block_num : ℤ
  pub record_num : ℤ

-- LogPos()
abbrev pub null_pos : LogPos
null_pos = record { file_num = negsuc 0; block_num = pos 0; record_num = pos 0 }

-- LogPos(0, 0, 0)
abbrev pub first_pos : LogPos
first_pos = record { file_num = pos 0; block_num = pos 0; record_num = pos 0 }

-- operator-
unfoldable pub pos_diff : LogPos → LogPos → LogPos
pos_diff a b = record {
  file_num = a.file_num -ℤ b.file_num;
  block_num = if eqb_ℤ a.file_num b.file_num then a.block_num -ℤ b.block_num else pos 0;
  record_num =
      if eqb_ℤ a.file_num b.file_num && eqb_ℤ a.block_num b.block_num
      then a.record_num -ℤ b.record_num
      else pos 0;
}

-- The result of `Compare`: -1, 0 or 1.
pub data Sign : Type 0 where
  less same more : Sign

unfoldable pub compare_pos : LogPos → LogPos → Sign
compare_pos a b =
    if ltb_ℤ a.file_num b.file_num
    then less
    else if ltb_ℤ b.file_num a.file_num
    then more
    else if ltb_ℤ a.block_num b.block_num
    then less
    else if ltb_ℤ b.block_num a.block_num
    then more
    else if ltb_ℤ a.record_num b.record_num
    then less
    else if ltb_ℤ b.record_num a.record_num
    then more
    else same

-- operator==
unfoldable pub eqb_pos : LogPos → LogPos → Bool
eqb_pos a b =
    eqb_ℤ a.file_num b.file_num && eqb_ℤ a.block_num b.block_num && eqb_ℤ a.record_num b.record_num

-- operator!=
unfoldable pub neb_pos : LogPos → LogPos → Bool
neb_pos a b =
    not (eqb_ℤ a.file_num b.file_num)
    || not (eqb_ℤ a.block_num b.block_num)
    || not (eqb_ℤ a.record_num b.record_num)

abbrev is_less : Sign → Bool
is_less less = true
is_less _ = false

abbrev is_more : Sign → Bool
is_more more = true
is_more _ = false

-- operator<, operator<=, operator>, operator>=
unfoldable pub ltb_pos : LogPos → LogPos → Bool
ltb_pos a b = is_less (compare_pos a b)

unfoldable pub leb_pos : LogPos → LogPos → Bool
leb_pos a b = not (is_more (compare_pos a b))

unfoldable pub gtb_pos : LogPos → LogPos → Bool
gtb_pos a b = is_more (compare_pos a b)

unfoldable pub geb_pos : LogPos → LogPos → Bool
geb_pos a b = not (is_less (compare_pos a b))

unfoldable pub is_null : LogPos → Bool
is_null p = eqb_ℤ p.file_num (negsuc 0)

unfoldable pub decrement : LogPos → ℤ → LogPos
decrement p blocks_per_file =
    if ltb_ℤ (pos 0) p.record_num
    then record p { record_num = p.record_num -ℤ pos 1 }
    else if ltb_ℤ (pos 0) p.block_num
    then record p { record_num = pos 0; block_num = p.block_num -ℤ pos 1 }
    else if ltb_ℤ (pos 0) p.file_num
    then record {
      file_num = p.file_num -ℤ pos 1;
      block_num = blocks_per_file -ℤ pos 1;
      record_num = pos 0;
    }
    else null_pos
