-- ===== src/Recordio/Errors.antt =====
-- What ReadRecord of io/logio/recordio.cc makes of bytes that no writer wrote.
use whisperlib.Prelude.{
  ℕ, ◌+◌, ◌^◌, ◌<◌, ◌==◌, ==_iff, ◌≡◌, ◌≢◌, ap, ◌⊎◌, lt→ltb, inl, inr, true, false, Bool-cases,
  List, [], length,
}
use whisperlib.Prelude.Outcome.{done, branch, on_value}
use whisperlib.NumStreaming.{big_endian, write_int32}
use whisperlib.Recordio.Writer.{Zlib, block_trailer_end, is_empty, size_minus}
use whisperlib.Recordio.Reader.{
  read_crc_corrupted, size_of_int32, RecordReader, Reading, take_block, fill, read_loop,
  read_record,
}
use whisperlib.Recordio.Reading.{trailed, read_fields}

differ : (a b : ℕ) → a ≢ b → (a == b) ≡ false
differ a b h = elim (Bool-cases (a == b)) [ inl e ↦ absurd (h ((==_iff a b).0 e)) | inr e ↦ e ]

module _ (zlib : Zlib) where
  corrupted :
      (r : RecordReader) (body : List ℕ) (content_size prev_crc crc : ℕ)
      → (zlib.crc32 (write_int32 big_endian prev_crc (write_int32 big_endian content_size body))
          ≢ crc)
        ⊎ (size_minus r.block_size block_trailer_end < size_of_int32 content_size)
      → take_block zlib r body content_size prev_crc crc ≡ (read_crc_corrupted, r)
  unfolding take_block
  corrupted r body content_size prev_crc crc (inl h) =
      let bad =
        differ
          (zlib.crc32 (write_int32 big_endian prev_crc (write_int32 big_endian content_size body)))
          crc h in
      rw (bad)
  corrupted r body content_size prev_crc crc (inr h) =
      let sum =
        zlib.crc32 (write_int32 big_endian prev_crc (write_int32 big_endian content_size body)) in
      let long =
        lt→ltb (size_minus r.block_size block_trailer_end) (size_of_int32 content_size) h in
      elim (Bool-cases (sum == crc)) [ inl e ↦ rw (e, long) | inr e ↦ rw (e) ]

  -- A block whose checksum is not that of its bytes, or whose size of the content, as a size_t, is more than
  -- a block has room for, is reported as corrupted. It is taken off the input, and
  -- nothing of it reaches the reader or `out`.
  pub read_record-corrupted :
      (s : Reading) (max_num_skip : ℕ) (body : List ℕ) (content_size prev_crc crc : ℕ)
      (tail : List ℕ)
      → s.reader.content ≡ []
      → s.input ≡ trailed body content_size prev_crc crc tail
      → length body + block_trailer_end ≡ s.reader.block_size
      → s.reader.block_size < 2 ^ 24
      → content_size < 2 ^ 32
      → prev_crc < 2 ^ 32
      → crc < 2 ^ 32
      → (zlib.crc32 (write_int32 big_endian prev_crc (write_int32 big_endian content_size body))
          ≢ crc)
        ⊎ (size_minus s.reader.block_size block_trailer_end < size_of_int32 content_size)
      → read_record zlib s max_num_skip ≡ done (read_crc_corrupted, record s { input = tail })
  unfolding read_record read_loop fill branch on_value
  read_record-corrupted s max body n prev crc tail c i h k hn hp hc bad =
      let nothing : is_empty s.reader.content ≡ true = ap is_empty c in
      let fields = read_fields zlib s.reader body n prev crc tail h k hn hp hc in
      let refused = corrupted s.reader body n prev crc bad in rw (nothing, i, fields, refused)
