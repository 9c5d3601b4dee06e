-- ===== src/Logio/Writer.antt =====
-- LogWriter of io/logio/logio.cc, with final file names from the start (temporary_incomplete_file false).
-- The system calls that may fail are those that open a file and write to it. The position of the open file
-- is always its end: SetPosition(0, FILE_END) when it is opened and when it is truncated.
use whisperlib.Prelude.{
  ℕ, zero, suc, ◌+◌, ◌-◌, ◌*◌, ◌/◌, ◌%◌, min, ltb, ◌==◌, Bool, true, false, not, ◌||◌,
  if◌then◌else◌, List, [], ◌++◌, length, take, drop, pos,
}
use whisperlib.Prelude.Outcome.{Outcome, done, starved, ◌>>=◌, check, branch}
use whisperlib.Recordio.Writer.{Zlib, RecordWriter, is_empty, append_buffer, finalize_content}
use whisperlib.Logio.Files.{Files, bytes_of, put_file, truncate}
use whisperlib.Logio.Position.{LogPos}

-- What File::Write returns: the bytes that it wrote, or an error, which may come after some of its bytes
-- were written, since it writes in pieces of 16 KB.
pub data WriteResult : Type 0 where
  wrote failed : ℕ → WriteResult

-- What the operating system answers to its calls, which are counted: whether a file could be opened, and
-- what came of a write of this size.
pub record Disk : Type 0 where
  pub opens : (time : ℕ) → Bool
  pub writes : (time : ℕ) → (size : ℕ) → WriteResult

-- After Initialize. `time` counts the calls of the system, `failed_calls` those that failed: a file that
-- could not be opened, and a write that did not write all.
pub record LogWriter : Type 0 where
  pub block_size : ℕ
  pub blocks_per_file : ℕ
  pub file_num : ℕ
  pub is_open : Bool
  pub files : Files
  pub buf : List ℕ
  pub recorder : RecordWriter
  pub time : ℕ
  pub failed_calls : ℕ

-- RecordWriter::Clear
unfoldable pub clear_recorder : RecordWriter → RecordWriter
clear_recorder r = record r { prev_block_crc = 0 }

abbrev pub file_size : LogWriter → ℕ
file_size w = w.block_size * w.blocks_per_file

-- The bytes of the current file, and its Position().
abbrev pub current : LogWriter → List ℕ
current w = bytes_of w.file_num w.files

abbrev pub position : LogWriter → ℕ
position w = length (current w)

-- CloseLog
unfoldable pub close_log : LogWriter → LogWriter
close_log w =
    if w.is_open then record w { recorder = clear_recorder w.recorder; is_open = false } else w

-- Tell
unfoldable pub tell_writer : LogWriter → LogPos
tell_writer w =
    if position w == file_size w
    then record {
      file_num = pos (w.file_num + 1);
      block_num = pos 0;
      record_num = pos w.recorder.content_record_count;
    }
    else record {
      file_num = pos w.file_num;
      block_num = pos (position w / w.block_size);
      record_num = pos w.recorder.content_record_count;
    }

-- The file that OpenNextLog opens.
unfoldable pub next_file : LogWriter → LogWriter
next_file w =
    let w1 = if w.is_open then record (close_log w) { file_num = w.file_num + 1 } else w in
    record w1 { recorder = clear_recorder w1.recorder; time = w1.time + 1 }

-- The open file at its end, cut to whole blocks.
unfoldable pub opened : LogWriter → LogWriter
opened w = record w {
  is_open = true;
  files =
      put_file w.file_num
        (if position w % w.block_size == 0
          then current w
          else truncate (position w / w.block_size * w.block_size) (current w))
        w.files;
}

-- A round of WriteBuffer after its write: whether all was written, and the writer. An error puts the
-- bytes back into buf_, and leaves in the file what was written; a write of a part is cut off again.
unfoldable pub written : LogWriter → (to_write : ℕ) → WriteResult → Bool × LogWriter
written w to_write (failed cb) = (
  false,
  record w {
    files = put_file w.file_num (current w ++ take (min cb to_write) w.buf) w.files;
    time = w.time + 1;
    failed_calls = w.failed_calls + 1;
  },
)
written w to_write (wrote cb) =
    if cb == to_write
    then (
      true,
      record w {
        files = put_file w.file_num (current w ++ take cb w.buf) w.files;
        buf = drop cb w.buf;
        time = w.time + 1;
      },
    )
    else (
      false,
      record w {
        files = put_file w.file_num (truncate (position w) (current w ++ take cb w.buf)) w.files;
        time = w.time + 1;
        failed_calls = w.failed_calls + 1;
      },
    )

module _ (disk : Disk) where
  -- OpenNextLog
  unfoldable pub open_next_log : (fuel : ℕ) → LogWriter → Outcome (Bool × LogWriter)
  open_next_log zero w = starved
  open_next_log (suc fuel) w =
      let w1 = next_file w in
      branch (disk.opens w.time)
        (do
          let w2 = opened w1
          _ ← check (position w2 % w2.block_size == 0)
          branch (position w2 == file_size w2) (open_next_log fuel w2) (done (true, w2)))
        (done (false, record w1 { failed_calls = w1.failed_calls + 1 }))

  -- Each round of OpenNextLog but the first goes to the next file.
  abbrev pub open_next : LogWriter → Outcome (Bool × LogWriter)
  open_next w = open_next_log (suc (suc (length w.files))) w

  -- The loop of WriteBuffer.
  unfoldable pub write_loop : (fuel : ℕ) → LogWriter → Outcome (Bool × LogWriter)
  write_loop zero w = starved
  write_loop (suc fuel) w = branch (is_empty w.buf) (done (true, w)) (
      branch (not (position w % w.block_size == 0) || ltb (file_size w) (position w))
        (done (false, w))
        (let to_write = min (file_size w - position w) (length w.buf) in
          let (all, w1) = written w to_write (disk.writes w.time to_write) in
          branch all
            (branch (position w1 == file_size w1)
              (do (ok, w2) ← open_next w1; branch ok (write_loop fuel w2) (done (false, w2)))
              (write_loop fuel w1))
            (done (false, w1))))

  -- WriteBuffer: each round writes a byte at least. What it flushes is with the system already.
  unfoldable pub write_buffer : LogWriter → Outcome (Bool × LogWriter)
  write_buffer w = do _ ← check w.is_open; write_loop (suc (length w.buf)) w

  -- Initialize, but for the lock file and the directories: the last file is opened, or file 0.
  unfoldable pub initialize_writer :
      (block_size blocks_per_file : ℕ) → RecordWriter → Files → Outcome (Bool × LogWriter)
  initialize_writer block_size blocks_per_file recorder files = open_next (record {
    block_size = block_size;
    blocks_per_file = blocks_per_file;
    file_num = length files - 1;
    is_open = false;
    files = files;
    buf = [];
    recorder = recorder;
    time = 0;
    failed_calls = 0;
  })

  module _ (zlib : Zlib) where
    -- WriteRecord, of a file that is open.
    unfoldable pub add_record : LogWriter → (bytes : List ℕ) → Outcome (Bool × LogWriter)
    add_record w bytes = do
      (recorder, buf, any) ← append_buffer zlib w.recorder bytes w.buf
      let w1 = record w { recorder = recorder; buf = buf }
      branch any (write_buffer w1) (done (true, w1))

    -- WriteRecord(buffer, size)
    unfoldable pub write_record : LogWriter → (bytes : List ℕ) → Outcome (Bool × LogWriter)
    write_record w bytes =
        branch w.is_open (add_record w bytes)
          (do (ok, w1) ← open_next w; branch ok (add_record w1 bytes) (done (false, w1)))

    -- FinalizeContent into buf_
    unfoldable pub finalize : LogWriter → Outcome LogWriter
    finalize w = do
      (recorder, buf) ← finalize_content zlib w.recorder w.buf
      done (record w { recorder = recorder; buf = buf })

    -- Flush
    unfoldable pub flush_writer : LogWriter → Outcome (Bool × LogWriter)
    flush_writer w = do
      w1 ← finalize w
      branch (is_empty w1.buf) (done (true, w1)) (write_buffer w1)

    -- Close
    unfoldable pub close_writer : LogWriter → Outcome LogWriter
    close_writer w =
        branch w.is_open (do w1 ← finalize w; (ok, w2) ← write_buffer w1; done (close_log w2))
          (done w)
