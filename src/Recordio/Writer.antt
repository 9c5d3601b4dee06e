-- ===== src/Recordio/Writer.antt =====
-- RecordWriter of io/logio/recordio.{h,cc}. A MemoryStream is the list of its bytes. Sizes are size_t:
-- a difference wraps around.
use whisperlib.Prelude.{
  ℕ, zero, suc, ◌+◌, ◌-◌, ◌%◌, ◌^◌, ltb, leb, Bool, true, false, if◌then◌else◌, Option, List, [],
  ◌∷◌, ◌++◌, length, take, drop, replicate,
}
use whisperlib.Prelude.Outcome.{Outcome, done, starved, ◌>>=◌, check, or_abort, branch}
use whisperlib.NumStreaming.{big_endian, write_byte, write_uint24, write_int32}

-- What the code calls of zlib: crc32 over all bytes of a stream, a bit pattern of 32 bits; the two
-- Deflate of whisperlib/io/zlib, of a stream and of a buffer, which may fail; and an inflate, with whether it came to the end of the zipped stream.
pub record Zlib : Type 0 where
  pub crc32 : List ℕ → ℕ
  pub deflate_stream : List ℕ → Option (List ℕ)
  pub deflate_buffer : List ℕ → Option (List ℕ)
  pub inflate : List ℕ → List ℕ × Bool

-- kBlockTrailerEnd, kRecordHeaderSize, kMaximumRecordBlockSize
abbrev pub block_trailer_end : ℕ
block_trailer_end = 12

abbrev pub record_header_size : ℕ
record_header_size = 4

abbrev pub maximum_record_block_size : ℕ
maximum_record_block_size = 0xffffff

-- The flags of a piece of a record.
abbrev pub has_cont : ℕ
has_cont = 1

abbrev pub is_zipped : ℕ
is_zipped = 2

abbrev pub is_first : ℕ
is_first = 4

-- a - b as size_t
abbrev pub size_minus : ℕ → ℕ → ℕ
size_minus a b = (a + 2 ^ 64 - b) % 2 ^ 64

abbrev pub is_empty : List ℕ → Bool
is_empty [] = true
is_empty (b ∷ bs) = false

-- `deflates` says whether zlib_ is set.
pub record RecordWriter : Type 0 where
  pub block_size : ℕ
  pub dumpable_size : ℕ
  pub deflates : Bool
  pub content : List ℕ
  pub content_record_count : ℕ
  pub prev_block_crc : ℕ

-- RecordWriter(block_size, deflate, dumpable_percent). `percent` is the product with dumpable_percent,
-- made a size_t.
unfoldable pub new_writer :
    (block_size : ℕ) → (deflate : Bool) → (percent : ℕ → ℕ) → Outcome RecordWriter
new_writer block_size deflate percent = do
  _ ← check (ltb block_size maximum_record_block_size)
  done (record {
    block_size = block_size;
    dumpable_size = percent (size_minus block_size block_trailer_end);
    deflates = deflate;
    content = [];
    content_record_count = 0;
    prev_block_crc = 0;
  })

-- ~RecordWriter
unfoldable pub delete_writer : RecordWriter → Outcome (Unit {0})
delete_writer w = check (is_empty w.content)

-- A piece of a record is put into the content: its flags, its size, its bytes.
unfoldable pub write_piece : RecordWriter → (flags : ℕ) → (bytes : List ℕ) → RecordWriter
write_piece w flags bytes = record w {
  content = write_uint24 big_endian (length bytes) (write_byte flags w.content) ++ bytes;
  content_record_count = w.content_record_count + 1;
}

abbrev pub first_flag : Bool → ℕ
first_flag first = if first then is_first else 0

-- The place for bytes of a record in the current block.
unfoldable pub available : RecordWriter → ℕ
available w =
    size_minus (size_minus (size_minus w.block_size block_trailer_end) record_header_size)
      (length w.content)

module _ (zlib : Zlib) where
  -- The content with its padding, its size and the checksum of the block before; and the whole block.
  unfoldable pub block_body : (block_size prev_crc : ℕ) → List ℕ → List ℕ
  block_body block_size prev_crc content = write_int32 big_endian prev_crc (
      write_int32 big_endian (length content) (
        content
        ++ replicate (size_minus (size_minus block_size (length content)) block_trailer_end) 0))

  unfoldable pub close_block : (block_size prev_crc : ℕ) → List ℕ → List ℕ
  close_block block_size prev_crc content =
      let body = block_body block_size prev_crc content in
      write_int32 big_endian (zlib.crc32 body) body

  -- FinalizeContent
  unfoldable pub finalize_content : RecordWriter → (out : List ℕ) → Outcome (RecordWriter × List ℕ)
  finalize_content w out = branch (is_empty w.content) (done (w, out)) (do
    _ ← check (leb (length w.content + block_trailer_end) w.block_size)
    done (
      record w {
        content = [];
        content_record_count = 0;
        prev_block_crc = zlib.crc32 (block_body w.block_size w.prev_block_crc w.content);
      },
      out ++ close_block w.block_size w.prev_block_crc w.content,
    ))

  -- The end of AppendRecord: a content that is large enough is a block.
  unfoldable pub dump :
      RecordWriter → (out : List ℕ) → (blocks : ℕ) → Outcome (RecordWriter × List ℕ × Bool)
  dump w out blocks =
      branch (ltb w.dumpable_size (length w.content))
        (do (w', out') ← finalize_content w out; done (w', out', leb 1 (blocks + 1)))
        (done (w, out, leb 1 blocks))

  -- The loop of AppendRecord(in, out, is_zipped): the writer, `out`, and the blocks written.
  unfoldable pub append_stream_loop :
      (fuel : ℕ)
      → RecordWriter
      → (stream out : List ℕ) → (first : Bool) → (blocks : ℕ) → Outcome (RecordWriter × List ℕ × ℕ)
  append_stream_loop zero w stream out first blocks = starved
  append_stream_loop (suc fuel) w stream out first blocks =
      branch (is_empty stream) (done (w, out, blocks)) (
        branch (leb (length stream) (available w))
          (append_stream_loop fuel (write_piece w (first_flag first) stream) [] out first blocks)
          (do
            (w', out') ←
                finalize_content
                  (write_piece w (has_cont + first_flag first) (take (available w) stream)) out
            append_stream_loop fuel w' (drop (available w) stream) out' false (blocks + 1)))

  -- The loop of AppendRecord(buffer, size, out).
  unfoldable pub append_buffer_loop :
      (fuel : ℕ)
      → RecordWriter
      → (buffer out : List ℕ) → (first : Bool) → (blocks : ℕ) → Outcome (RecordWriter × List ℕ × ℕ)
  append_buffer_loop zero w buffer out first blocks = starved
  append_buffer_loop (suc fuel) w buffer out first blocks =
      branch (leb (length buffer) (available w))
        (done (write_piece w (first_flag first) buffer, out, blocks))
        (do
          (w', out') ←
              finalize_content
                (write_piece w (has_cont + first_flag first) (take (available w) buffer)) out
          append_buffer_loop fuel w' (drop (available w) buffer) out' false (blocks + 1))

  -- AppendRecord(in, out, true). Each round but the first takes a byte at least, and the last one finds
  -- the stream empty.
  unfoldable pub append_zipped :
      RecordWriter → (stream out : List ℕ) → Outcome (RecordWriter × List ℕ × Bool)
  append_zipped w stream out = do
    (w', out', blocks) ← append_stream_loop (suc (suc (suc (length stream)))) w stream out true 0
    dump w' out' blocks

  -- AppendRecord(in, out)
  unfoldable pub append_stream :
      RecordWriter → (stream out : List ℕ) → Outcome (RecordWriter × List ℕ × Bool)
  append_stream w stream out =
      branch w.deflates
        (do zipped ← or_abort (zlib.deflate_stream stream); append_zipped w zipped out)
        (append_zipped w stream out)

  -- AppendRecord(buffer, size, out)
  unfoldable pub append_buffer :
      RecordWriter → (buffer out : List ℕ) → Outcome (RecordWriter × List ℕ × Bool)
  append_buffer w buffer out =
      branch w.deflates
        (do zipped ← or_abort (zlib.deflate_buffer buffer); append_zipped w zipped out)
        (do
          (w', out', blocks) ← append_buffer_loop (suc (suc (length buffer))) w buffer out true 0
          dump w' out' blocks)
