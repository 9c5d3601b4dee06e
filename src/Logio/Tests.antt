-- ===== src/Logio/Tests.antt =====
-- Concrete logs for io/logio/logio.cc.
use whisperlib.Prelude.{
  ℕ, ◌≡◌, Bool, refl, true, false, some, none, List, [], ◌∷◌, length, replicate, arith, ltb,
  if◌then◌else◌, map,
}
use whisperlib.Prelude.Outcome.{Outcome, done, ◌>>=◌, Ensures}
use whisperlib.Recordio.Writer.{Zlib, RecordWriter}
use whisperlib.Logio.Files.{all_bytes, bytes_in}
use whisperlib.Logio.Position.{LogPos}
use whisperlib.Logio.Writer.{Disk, wrote, failed, LogWriter, tell_writer, initialize_writer}
use whisperlib.Logio.Draining.{IsUntorn}
use whisperlib.Logio.Run.{LogCall, writes_record, flushes, closes, Follows, run, run-Follows}

-- A disk that fails from its fifth call on.
abbrev disk : Disk
disk = record { opens = λ t. true; writes = λ t n. if ltb t 4 then wrote n else failed 0 }

abbrev zlib : Zlib
zlib = record {
  crc32 = λ bs. length bs;
  deflate_stream = λ bs. none;
  deflate_buffer = λ bs. none;
  inflate = λ bs. (bs, true);
}

abbrev recorder : RecordWriter
recorder = record {
  block_size = 40;
  dumpable_size = 20;
  deflates = false;
  content = [];
  content_record_count = 0;
  prev_block_crc = 0;
}

-- One block in the first file, and two that wait; a file has two.
abbrev writer : LogWriter
writer = record {
  block_size = 40;
  blocks_per_file = 2;
  file_num = 0;
  is_open = true;
  files = some (replicate 40 1) ∷ [];
  buf = replicate 80 2;
  recorder = recorder;
  time = 1;
  failed_calls = 0;
}

-- A disk that fails each write after a byte of it was written.
abbrev tearing : Disk
tearing = record { opens = λ t. true; writes = λ t n. failed 1 }

whole_or_none : (b : Bool) (n k : ℕ) → (if b then wrote n else failed 0) ≡ failed k → k ≡ 0
whole_or_none true n k e = cc
whole_or_none false n k e = cc

disk-IsUntorn : IsUntorn disk
disk-IsUntorn t n k e = whole_or_none (ltb t 4) n k e

abbrev calls : List LogCall
calls = writes_record (replicate 50 7) ∷ writes_record (8 ∷ 9 ∷ []) ∷ flushes ∷ closes ∷ []

run-Follows_example : Ensures (Follows (all_bytes (some (replicate 40 1) ∷ []))) (
    initialize_writer disk 40 2 recorder (some (replicate 40 1) ∷ []) >>= λ r.
    run disk zlib r.1 calls)
run-Follows_example =
    run-Follows disk zlib 40 2 recorder (some (replicate 40 1) ∷ []) calls disk-IsUntorn
      (omega arith) (omega arith) refl ((refl, (omega arith, omega arith)), omega arith)
      (((1, refl), omega arith), tt)

abbrev file_sizes : Outcome (List ℕ × LogPos)
file_sizes = initialize_writer disk 40 2 recorder (some (replicate 40 1) ∷ []) >>= λ r.
    run disk zlib r.1 calls >>= λ w. done (map (λ f. length (bytes_in f)) w.files, tell_writer w)
