-- ===== src/Recordio/Tests.antt =====
-- Concrete records for io/logio/recordio.cc.
use whisperlib.Prelude.{
  ℕ, ◌+◌, ◌*◌, ◌/◌, ◌%◌, ◌^◌, ◌<◌, ◌≡◌, refl, inl, true, false, some, List, [], ◌∷◌, arith,
  replicate,
}
use whisperlib.Prelude.Outcome.{Outcome, done, ◌>>=◌, Returns, Ensures}
use whisperlib.NumStreaming.{write_int32, write_number, in_order, to_bytes}
use whisperlib.Recordio.Writer.{Zlib, RecordWriter, new_writer, append_stream, append_buffer, dump}
use whisperlib.Recordio.Reader.{read_no_data, read_crc_corrupted, Reading, new_reader, read_record}
use whisperlib.Recordio.Sequence.{read_all}
use whisperlib.Recordio.RoundTrip.{write_all, read_all-write_all}
use whisperlib.Recordio.Streams.{append_stream-append_buffer}
use whisperlib.Recordio.Reading.{trailed}
use whisperlib.Recordio.Errors.{read_record-corrupted}
use whisperlib.Recordio.Termination.{read_record-ends}

-- A checksum that depends on each byte and its place.
abbrev sum : List ℕ → ℕ
sum [] = 7
sum (b ∷ bs) = (b + 31 * sum bs) % 2 ^ 32

abbrev zlib : Zlib
zlib = record {
  crc32 = sum;
  deflate_stream = λ bs. some (99 ∷ bs);
  deflate_buffer = λ bs. some (98 ∷ bs);
  inflate = λ bs. (bs, true);
}

sum_bound : (bs : List ℕ) → sum bs < 2 ^ 32
sum_bound [] = omega arith
sum_bound (b ∷ bs) = omega arith

abbrev nine_tenths : ℕ → ℕ
nine_tenths n = n * 9 / 10

-- The second record is longer than a block.
abbrev records : List (List ℕ)
records = (1 ∷ 2 ∷ 3 ∷ []) ∷ replicate 150 5 ∷ [] ∷ (9 ∷ []) ∷ []

read_all-write_all_example :
    Returns
      (λ r. read_all zlib 5 (new_reader 100) r.1 ≡ done (records, read_no_data))
      (new_writer 100 false nine_tenths >>= λ w. write_all zlib w [] records)
read_all-write_all_example =
    read_all-write_all zlib 100 nine_tenths records sum_bound (omega arith) (omega arith)

abbrev writer : RecordWriter
writer = record {
  block_size = 100;
  dumpable_size = 79;
  deflates = false;
  content = 4 ∷ 0 ∷ 0 ∷ 1 ∷ 8 ∷ [];
  content_record_count = 1;
  prev_block_crc = 0;
}

append_stream-append_buffer_example :
    (append_stream zlib writer (replicate 120 3) []
      ≡ append_buffer zlib writer (replicate 120 3) [])
    × (append_stream zlib writer [] [] ≡ dump zlib writer [] 0)
append_stream-append_buffer_example =
    append_stream-append_buffer zlib writer (replicate 120 3) [] refl (omega arith) (omega arith)
      (omega arith)

-- A block of 20 bytes whose checksum is 1, and a byte after it.
abbrev bad_block : Reading
bad_block = record {
  reader = new_reader 20;
  input = trailed (4 ∷ 0 ∷ 0 ∷ 1 ∷ 8 ∷ 0 ∷ 0 ∷ 0 ∷ []) 5 0 1 (77 ∷ []);
  out = some [];
  num_skipped = 0;
}

read_record-corrupted_example :
    read_record zlib bad_block 0 ≡ done (read_crc_corrupted, record bad_block { input = 77 ∷ [] })
unfolding new_reader write_int32 write_number in_order to_bytes
read_record-corrupted_example =
    read_record-corrupted zlib bad_block 0 (4 ∷ 0 ∷ 0 ∷ 1 ∷ 8 ∷ 0 ∷ 0 ∷ 0 ∷ []) 5 0 1 (77 ∷ []) refl
      refl refl (omega arith) (omega arith) (omega arith) (omega arith) (inl (λ e. ground arith))

read_record-ends_example : Ensures (λ t. Unit {0}) (read_record zlib bad_block 2)
read_record-ends_example = read_record-ends zlib bad_block 2

-- With blocks that are closed only when they are full, no byte of a record fits a block with 17 bytes of
-- content. The header that is written there has no byte, and the reader takes the bytes that follow it in
-- the next block for the end of an unknown record.
abbrev tight : Outcome (RecordWriter × List ℕ)
tight = new_writer 33 false (λ n. n) >>= λ w.
    write_all zlib w [] (replicate 13 1 ∷ (2 ∷ 3 ∷ []) ∷ (4 ∷ []) ∷ [])

abbrev what_is_read : Outcome (List (List ℕ))
what_is_read = tight >>= λ r. read_all zlib 5 (new_reader 33) r.1 >>= λ a. done a.0
