-- ===== src/NumStreaming/Tests.antt =====
-- Concrete numbers for io/num_streaming.h.
use whisperlib.Prelude.{◌≡◌, refl, some, [], ◌∷◌, ◌++◌, arith}
use whisperlib.Prelude.Outcome.{done}
use whisperlib.NumStreaming.{
  big_endian, to_bytes, in_order, write_number, write_uint24, read_number, try_read_number,
  peek_number,
}
use whisperlib.NumStreaming.RoundTrip.{read_number-write_number}

-- 0x102030 with the most significant byte first
write_uint24_bytes : write_uint24 big_endian 0x102030 [] ≡ 16 ∷ 32 ∷ 48 ∷ []
unfolding write_uint24 write_number in_order to_bytes
write_uint24_bytes = refl

read_number-write_number_example :
    (read_number big_endian 3 (write_number big_endian 3 0x102030 [] ++ 7 ∷ [])
      ≡ done (0x102030, 7 ∷ []))
    × ((try_read_number big_endian 3 (write_number big_endian 3 0x102030 [] ++ 7 ∷ [])
          ≡ (some 0x102030, 7 ∷ []))
        × (peek_number big_endian 3 (write_number big_endian 3 0x102030 [] ++ 7 ∷ [])
            ≡ done 0x102030))
read_number-write_number_example =
    read_number-write_number big_endian 3 0x102030 (7 ∷ []) (omega arith)
