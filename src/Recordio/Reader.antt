-- ===== src/Recordio/Reader.antt =====
-- RecordReader of io/logio/recordio.{h,cc}, over streams as lists of bytes.
use whisperlib.Prelude.{
  ℕ, zero, suc, ◌+◌, ◌-◌, ◌/◌, ◌%◌, ◌^◌, ltb, leb, ◌==◌, Bool, true, false, not, ◌&&◌, ◌||◌,
  if◌then◌else◌, Option, none, some, List, [], ◌++◌, length, take, drop,
}
use whisperlib.Prelude.Outcome.{Outcome, done, starved, ◌>>=◌, check, branch, on_value}
use whisperlib.NumStreaming.{big_endian, write_int32, read_byte, read_uint24, read_int32}
use whisperlib.Recordio.Writer.{Zlib, block_trailer_end, size_minus, is_empty}

pub data ReadResult : Type 0 where
  read_ok read_no_data read_crc_corrupted read_zip_corrupted read_crc_block_broken : ReadResult

-- temp_ is left out: nothing reads it.
pub record RecordReader : Type 0 where
  pub block_size : ℕ
  pub content : List ℕ
  pub record_content : List ℕ
  pub prev_block_crc : ℕ
  pub skip_record : Bool

unfoldable pub new_reader : (block_size : ℕ) → RecordReader
new_reader block_size = record {
  block_size = block_size;
  content = [];
  record_content = [];
  prev_block_crc = 0;
  skip_record = false;
}

-- Clear
unfoldable pub clear_reader : RecordReader → RecordReader
clear_reader r = record r { content = []; prev_block_crc = 0 }

-- A call of ReadRecord: the reader, `in`, `out` (`none` is NULL) and *num_skipped.
pub record Reading : Type 0 where
  pub reader : RecordReader
  pub input : List ℕ
  pub out : Option (List ℕ)
  pub num_skipped : ℕ

-- An int32 as a size_t
abbrev pub size_of_int32 : ℕ → ℕ
size_of_int32 n = if ltb n (2 ^ 31) then n else n + (2 ^ 64 - 2 ^ 32)

-- The bits HAS_CONT, IS_ZIPPED and IS_FIRST of the flags.
abbrev pub continues : ℕ → Bool
continues flags = flags % 2 == 1

abbrev pub zipped : ℕ → Bool
zipped flags = flags / 2 % 2 == 1

abbrev pub starts : ℕ → Bool
starts flags = flags / 4 % 2 == 1

abbrev pub is_ok : ReadResult → Bool
is_ok read_ok = true
is_ok read_no_data = false
is_ok read_crc_corrupted = false
is_ok read_zip_corrupted = false
is_ok read_crc_block_broken = false

abbrev pub is_broken : ReadResult → Bool
is_broken read_ok = false
is_broken read_no_data = false
is_broken read_crc_corrupted = false
is_broken read_zip_corrupted = false
is_broken read_crc_block_broken = true

module _ (zlib : Zlib) where
  -- What ReadNextBlock decides on the fields of a block.
  unfoldable pub take_block :
      RecordReader → (bytes : List ℕ) → (content_size prev_crc crc : ℕ) → ReadResult × RecordReader
  take_block r bytes content_size prev_crc crc =
      let expected_crc =
        zlib.crc32 (write_int32 big_endian prev_crc (write_int32 big_endian content_size bytes)) in
      let size = size_of_int32 content_size in
      if not (expected_crc == crc) || ltb (size_minus r.block_size block_trailer_end) size
      then (read_crc_corrupted, r)
      else (
        if not (prev_crc == 0)
              && (not (r.prev_block_crc == 0) && not (prev_crc == r.prev_block_crc))
            then read_crc_block_broken
            else read_ok,
        record r { prev_block_crc = crc; content = r.content ++ take size bytes },
      )

  -- ReadNextBlock
  unfoldable pub read_next_block :
      RecordReader → (input : List ℕ) → Outcome (ReadResult × RecordReader × List ℕ)
  read_next_block r input =
      branch (ltb (length input) r.block_size) (done (read_no_data, r, input)) (do
        let body = size_minus r.block_size block_trailer_end
        (content_size, input1) ← read_int32 big_endian (drop body input)
        (prev_crc, input2) ← read_int32 big_endian input1
        (crc, input3) ← read_int32 big_endian input2
        let taken = take_block r (take body input) content_size prev_crc crc
        done (taken.0, taken.1, input3))

  -- SkipRecord
  unfoldable pub skip_piece : RecordReader → Outcome RecordReader
  skip_piece r = do
    _ ← check (leb 4 (length r.content))
    (flags, content1) ← read_byte r.content
    (len, content2) ← read_uint24 big_endian content1
    done (record r { content = drop len content2; skip_record = continues flags })

  -- The first step of a round of ReadRecord: a block is read when there is no content. A result ends the
  -- call.
  unfoldable pub fill : Reading → Outcome (Reading × Option ReadResult)
  fill s =
      branch (is_empty s.reader.content)
        (do
          (ret, r, input) ← read_next_block s.reader s.input
          let resumes = is_broken ret && not (is_empty r.record_content)
          let r' = if resumes then record r { skip_record = true } else r
          done (
            record s { reader = r'; input = input },
            if is_ok ret || resumes then none else some ret,
          ))
        (done (s, none))

  -- `max_num_skip && max_num_skip <= *num_skipped`
  abbrev pub skipped_enough : Reading → (max_num_skip : ℕ) → Bool
  skipped_enough s max_num_skip = not (max_num_skip == 0) && leb max_num_skip s.num_skipped

  -- The loop that skips the pieces of a broken record; `true` ends the call.
  unfoldable pub skip_loop : (fuel : ℕ) → Reading → (max_num_skip : ℕ) → Outcome (Reading × Bool)
  skip_loop zero s max_num_skip = starved
  skip_loop (suc fuel) s max_num_skip =
      branch (s.reader.skip_record && not (is_empty s.reader.content))
        (do
          r ← skip_piece s.reader
          let s' = record s { reader = r; num_skipped = s.num_skipped + 1 }
          branch (skipped_enough s' max_num_skip) (done (s', true))
              (skip_loop fuel s' max_num_skip))
        (done (s, false))

  -- The end of a record, whose pieces are record_content_.
  unfoldable pub end_record : Reading → (flags : ℕ) → Reading × ReadResult
  end_record s flags =
      let s' = record s { reader = record (s.reader) { record_content = [] } } in
      elim s.out [
        | none ↦ (s', read_ok)
        | some out ↦
            if zipped flags
            then (let unzipped = zlib.inflate s.reader.record_content in
                (
                  record s' { out = some (out ++ unzipped.0) },
                  if unzipped.1 then read_ok else read_zip_corrupted,
                ))
            else (record s' { out = some (out ++ s.reader.record_content) }, read_ok)
      ]

  abbrev pub has_out : Option (List ℕ) → Bool
  has_out none = false
  has_out (some out) = true

  -- The piece with these flags and this length, at the front of `content`: a result ends the call.
  unfoldable pub take_piece :
      Reading
      → (flags len : ℕ) → (content : List ℕ) → (max_num_skip : ℕ) → Reading × Option ReadResult
  take_piece s flags len content max_num_skip =
      let fresh = is_empty s.reader.record_content in
      let skipped = record s {
        reader = record (s.reader) { content = drop len content };
        num_skipped = s.num_skipped + 1;
      } in
      let kept = record s {
        reader = record (s.reader) {
          content = drop len content;
          record_content =
              if has_out s.out
              then s.reader.record_content ++ take len content
              else s.reader.record_content;
        };
      } in
      if starts flags && not fresh
      then (
        record skipped { reader = record (skipped.reader) { record_content = [] } },
        some read_crc_corrupted,
      )
      else if has_out s.out && (fresh && not (starts flags))
      then (skipped, if skipped_enough skipped max_num_skip then some read_ok else none)
      else if continues flags
      then (kept, none)
      else let ended = end_record kept flags in (ended.0, some ended.1)

  unfoldable pub read_piece : Reading → (max_num_skip : ℕ) → Outcome (Reading × Option ReadResult)
  read_piece s max_num_skip = do
    _ ← check (leb 4 (length s.reader.content))
    (flags, content1) ← read_byte s.reader.content
    (len, content2) ← read_uint24 big_endian content1
    done (take_piece s flags len content2 max_num_skip)

  -- The loop of ReadRecord.
  unfoldable pub read_loop :
      (fuel : ℕ) → Reading → (max_num_skip : ℕ) → Outcome (ReadResult × Reading)
  read_loop zero s max_num_skip = starved
  read_loop (suc fuel) s max_num_skip = do
    (s1, r1) ← fill s
    on_value r1
        (do
          (s2, enough) ← skip_loop (suc (length s1.reader.content)) s1 max_num_skip
          branch enough (done (read_ok, s2)) (
              branch (is_empty s2.reader.content) (read_loop fuel s2 max_num_skip) (do
                (s3, r3) ← read_piece s2 max_num_skip
                on_value r3 (read_loop fuel s3 max_num_skip) λ r. done (r, s3))))
        λ r. done (r, s1)

  -- ReadRecord: a round takes a block or the header of a piece.
  unfoldable pub read_record : Reading → (max_num_skip : ℕ) → Outcome (ReadResult × Reading)
  read_record s max_num_skip =
      read_loop (suc (length s.reader.content + length s.input)) s max_num_skip
