-- ===== src/Logio/Position/Tests.antt =====
-- The theorems on LogPos of io/logio/logio.h at concrete positions.
use whisperlib.Prelude.{◌≡◌, ◌↔◌, true, not, ◌||◌, pos, arith}
use whisperlib.Logio.Position.{
  LogPos, Sign, compare_pos, eqb_pos, neb_pos, ltb_pos, leb_pos, gtb_pos, geb_pos, decrement,
}
use whisperlib.Logio.Position.Order.{LtPos, compare_pos_iff, operators_agree, ltb_pos-decrement}

abbrev low : LogPos
low = record { file_num = pos 1; block_num = pos 0; record_num = pos 0 }

abbrev high : LogPos
high = record { file_num = pos 1; block_num = pos 2; record_num = pos 0 }

compare_pos_iff_example :
    ((compare_pos low high ≡ Sign.less) ↔ LtPos low high)
    × ((compare_pos low high ≡ Sign.same) ↔ (low ≡ high))
    × ((compare_pos low high ≡ Sign.more) ↔ LtPos high low)
compare_pos_iff_example = compare_pos_iff low high

operators_agree_example :
    (gtb_pos low high ≡ ltb_pos high low)
    × (geb_pos low high ≡ not (ltb_pos low high))
    × (leb_pos low high ≡ (ltb_pos low high || eqb_pos low high))
    × (neb_pos low high ≡ not (eqb_pos low high))
operators_agree_example = operators_agree low high

ltb_pos-decrement_example : ltb_pos (decrement low (pos 16)) low ≡ true
ltb_pos-decrement_example = ltb_pos-decrement low (pos 16) (omega arith)
