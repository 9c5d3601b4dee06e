-- ===== src/NumStreaming.antt =====
-- BaseNumStreamer of io/num_streaming.h: numbers written to a stream and read from it, on a host whose
-- byte order is little endian. A stream is the list of its bytes, the next one to be read first. A number
-- is its bit pattern; `width` is the size of its type in bytes (3 for uint24).
pub mod RoundTrip
mod Tests
use whisperlib.Prelude.{
  ℕ, zero, suc, ◌+◌, ◌-◌, ◌*◌, ◌/◌, ◌%◌, ◌^◌, ◌<◌, ltb, leb, ◌==◌, Bool, true, false, if◌then◌else◌,
  Option, none, some, List, [], ◌∷◌, ◌++◌, length, take, drop,
}
use whisperlib.Prelude.Outcome.{Outcome, done, ◌>>=◌, check}

pub data ByteOrder : Type 0 where
  big_endian little_endian : ByteOrder

-- SwapBytes, which swaps the bytes from both ends until the middle.
abbrev pub swap_bytes : List ℕ → List ℕ
swap_bytes [] = []
swap_bytes (b ∷ bs) = swap_bytes bs ++ b ∷ []

-- The bytes of a number in memory, and the number that bytes in memory are.
unfoldable pub to_bytes : (width : ℕ) → ℕ → List ℕ
to_bytes zero n = []
to_bytes (suc width) n = n % 256 ∷ to_bytes width (n / 256)

unfoldable pub of_bytes : List ℕ → ℕ
of_bytes [] = 0
of_bytes (b ∷ bs) = b + 256 * of_bytes bs

unfoldable pub in_order : ByteOrder → List ℕ → List ℕ
in_order big_endian bs = swap_bytes bs
in_order little_endian bs = bs

-- WriteNumber
unfoldable pub write_number : ByteOrder → (width : ℕ) → ℕ → (stream : List ℕ) → List ℕ
write_number order width n stream = stream ++ in_order order (to_bytes width n)

-- ReadNumber, without a place for `success`: a CHECK that all bytes are there.
unfoldable pub read_number : ByteOrder → (width : ℕ) → (stream : List ℕ) → Outcome (ℕ × List ℕ)
read_number order width stream = do
  _ ← check (width == length (take width stream))
  done (of_bytes (in_order order (take width stream)), drop width stream)

-- ReadNumber with a place for `success`: the number if all bytes were there, and the rest of the
-- stream. Fewer bytes are read all the same.
unfoldable pub try_read_number : ByteOrder → (width : ℕ) → (stream : List ℕ) → Option ℕ × List ℕ
try_read_number order width stream = (
  if width == length (take width stream)
      then some (of_bytes (in_order order (take width stream)))
      else none,
  drop width stream,
)

-- PeekNumber
unfoldable pub peek_number : ByteOrder → (width : ℕ) → (stream : List ℕ) → Outcome ℕ
peek_number order width stream = do
  _ ← check (width == length (take width stream))
  done (of_bytes (in_order order (take width stream)))

-- WriteByte, WriteUInt24 and WriteInt32
unfoldable pub write_byte : ℕ → List ℕ → List ℕ
write_byte byte stream = write_number little_endian 1 byte stream

unfoldable pub write_uint24 : ByteOrder → ℕ → List ℕ → List ℕ
write_uint24 order n stream = write_number order 3 n stream

unfoldable pub write_int32 : ByteOrder → ℕ → List ℕ → List ℕ
write_int32 order n stream = write_number order 4 n stream

-- ReadByte, ReadUInt24 and ReadInt32
unfoldable pub read_byte : List ℕ → Outcome (ℕ × List ℕ)
read_byte stream = read_number little_endian 1 stream

unfoldable pub read_uint24 : ByteOrder → List ℕ → Outcome (ℕ × List ℕ)
read_uint24 order stream = read_number order 3 stream

unfoldable pub read_int32 : ByteOrder → List ℕ → Outcome (ℕ × List ℕ)
read_int32 order stream = read_number order 4 stream
