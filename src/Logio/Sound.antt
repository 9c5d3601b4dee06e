-- ===== src/Logio/Sound.antt =====
-- What holds of a LogWriter of io/logio/logio.cc and its files between calls, and OpenNextLog.
use whisperlib.Prelude.{
  ℕ, zero, suc, ◌+◌, ◌*◌, ◌%◌, ◌≤◌, ◌<◌, ◌==◌, ==_iff, ◌≡◌, refl, ap, ◌∙◌, ◌⊎◌, inl, inr, Bool,
  true, false, Bool-cases, List, [], length, arith,
}
use whisperlib.Prelude.Outcome.{Returns, Returns-branch, Returns-check, Returns-pure}
use whisperlib.Logio.Files.{
  Files, put_file, all_bytes, Each, IsLast, put_file-IsLast, all_bytes-put_same, bytes_of-put_file,
  bytes_of-beyond, Each-put_file, Each-bytes_of,
}
use whisperlib.Logio.Multiples.{IsWhole, IsWhole-mod}
use whisperlib.Logio.Growing.{IsFit}
use whisperlib.Logio.Writer.{
  Disk, LogWriter, clear_recorder, file_size, current, position, close_log, next_file, opened,
  open_next_log, open_next,
}

-- Whole blocks, and no more than a file has.
abbrev pub IsFile : (block_size blocks_per_file : ℕ) → List ℕ → Type 0
IsFile block_size blocks_per_file bytes =
    IsWhole block_size (length bytes) × (length bytes ≤ block_size * blocks_per_file)

pub record AreSized (w : LogWriter) : Type 0 where
  pub block_some : 1 ≤ w.block_size
  pub file_some : 1 ≤ w.blocks_per_file
  pub recorder_size : w.recorder.block_size ≡ w.block_size
  pub recorder_ok : IsFit w.recorder
  pub files_ok : Each (IsFile w.block_size w.blocks_per_file) w.files
  pub last_file : IsLast w.file_num w.files
  pub buf_whole : IsWhole w.block_size (length w.buf)

-- An open file has room.
abbrev pub HasRoom : LogWriter → Type 0
HasRoom w = (w.is_open ≡ false) ⊎ (position w < file_size w)

abbrev pub IsSound : LogWriter → Type 0
IsSound w = AreSized w × HasRoom w

pub no_bytes : (block_size blocks_per_file : ℕ) → IsFile block_size blocks_per_file []
no_bytes block_size blocks_per_file = ((zero, omega arith), omega arith)

pub current_ok : (w : LogWriter) → AreSized w → IsFile w.block_size w.blocks_per_file (current w)
current_ok w h =
    Each-bytes_of (IsFile w.block_size w.blocks_per_file) w.file_num w.files
      (no_bytes w.block_size w.blocks_per_file) h.files_ok

-- The last file is replaced by one of whole blocks.
pub replace_last :
    (w : LogWriter) (bytes : List ℕ)
    → AreSized w
    → IsFile w.block_size w.blocks_per_file bytes
    → AreSized (record w { files = put_file w.file_num bytes w.files })
replace_last w bytes h ok = record {
  block_some = h.block_some;
  file_some = h.file_some;
  recorder_size = h.recorder_size;
  recorder_ok = h.recorder_ok;
  files_ok =
      Each-put_file (IsFile w.block_size w.blocks_per_file) w.file_num bytes w.files
        (no_bytes w.block_size w.blocks_per_file) ok h.files_ok;
  last_file = (let e = put_file-IsLast w.file_num bytes w.files h.last_file in omega (arith, e));
  buf_whole = h.buf_whole;
}

-- The file of the writer's number, or the next one.
abbrev pub at_file : LogWriter → (num : ℕ) → LogWriter
at_file w num = record w {
  file_num = num;
  is_open = false;
  recorder = clear_recorder w.recorder;
  time = w.time + 1;
}

next_file_lem : (w : LogWriter) → w.is_open ≡ true → next_file w ≡ at_file w (w.file_num + 1)
unfolding next_file close_log clear_recorder
next_file_lem w e = rw (e)

pub same_file_lem : (w : LogWriter) → w.is_open ≡ false → next_file w ≡ at_file w w.file_num
unfolding next_file close_log clear_recorder
same_file_lem w e = rw (e)

pub at_file-AreSized :
    (w : LogWriter) (num : ℕ) → w.file_num ≤ num → AreSized w → AreSized (at_file w num)
unfolding clear_recorder
at_file-AreSized w num more h = record {
  block_some = h.block_some;
  file_some = h.file_some;
  recorder_size = h.recorder_size;
  recorder_ok = h.recorder_ok;
  files_ok = h.files_ok;
  last_file = (let l = h.last_file in omega (arith, l, more));
  buf_whole = h.buf_whole;
}

-- A file is open, and no call of the system failed since there were `n` failures; or one did. No byte
-- changed.
abbrev pub Ready : (n : ℕ) → Files → List ℕ → Bool × LogWriter → Type 0
Ready n files buf r =
    IsSound r.1
    × ((all_bytes r.1.files ≡ all_bytes files)
        × ((r.1.buf ≡ buf)
            × (((r.0 ≡ true) × ((r.1.is_open ≡ true) × (r.1.failed_calls ≡ n)))
                ⊎ ((r.0 ≡ false) × (r.1.failed_calls ≡ n + 1)))))

-- The file opened, when its size is one of whole blocks.
abbrev pub reopened : LogWriter → LogWriter
reopened w = record w { is_open = true; files = put_file w.file_num (current w) w.files }

pub opened_lem : (w : LogWriter) → AreSized w → opened w ≡ reopened w
unfolding opened
opened_lem w h =
    let whole : (position w % w.block_size == 0) ≡ true =
      ap (λ x. x == 0) (IsWhole-mod w.block_size (position w) (current_ok w h).0) in
    rw (whole)

pub reopened-AreSized : (w : LogWriter) → AreSized w → AreSized (reopened w)
reopened-AreSized w h =
    let k = replace_last w (current w) h (current_ok w h) in
    record {
      block_some = k.block_some;
      file_some = k.file_some;
      recorder_size = k.recorder_size;
      recorder_ok = k.recorder_ok;
      files_ok = k.files_ok;
      last_file = k.last_file;
      buf_whole = k.buf_whole;
    }

pub counted : (w : LogWriter) (m : ℕ) → AreSized w → AreSized (record w { failed_calls = m })
counted w m h = record {
  block_some = h.block_some;
  file_some = h.file_some;
  recorder_size = h.recorder_size;
  recorder_ok = h.recorder_ok;
  files_ok = h.files_ok;
  last_file = h.last_file;
  buf_whole = h.buf_whole;
}

pub not_full :
    (w : LogWriter) → AreSized w → (position w == file_size w) ≡ false → position w < file_size w
not_full w h e = let m = (current_ok w h).1 in ground (arith, e, m)

module _ (disk : Disk) (n : ℕ) (files : Files) (buf : List ℕ) where
  -- How a round of OpenNextLog goes on with a file that is full.
  open_step :
      (fuel : ℕ) (w w1 : LogWriter)
      → next_file w ≡ w1
      → w1.is_open ≡ false
      → AreSized w1
      → w1.buf ≡ buf
      → all_bytes w1.files ≡ all_bytes files
      → w1.failed_calls ≡ n
      → ((position (reopened w1) == file_size w1) ≡ true
          → Returns (Ready n files buf) (open_next_log disk fuel (reopened w1)))
      → Returns (Ready n files buf) (open_next_log disk (suc fuel) w)
  unfolding open_next_log
  open_step fuel w w1 e closed h same_buf same_bytes none_failed go_on =
      let Q = Ready n files buf in
      let sized = reopened-AreSized w1 h in
      let kept = all_bytes-put_same w1.file_num w1.files h.last_file ∙ same_bytes in
      rw (e, opened_lem w1 h)
        (Returns-branch Q (disk.opens w.time) _ _
          (λ ok.
            Returns-check Q (position (reopened w1) % w1.block_size == 0) _
              (ap (λ x. x == 0)
                (IsWhole-mod w1.block_size (position (reopened w1))
                  (current_ok (reopened w1) sized).0))
              (Returns-branch Q (position (reopened w1) == file_size w1) _ _ go_on (λ free.
                Returns-pure Q (true, reopened w1)
                  (
                    (sized, inr (not_full (reopened w1) sized free)),
                    (kept, (same_buf, inl (refl, (refl, none_failed)))),
                  ))))
          (λ fails.
            Returns-pure Q (false, record w1 { failed_calls = w1.failed_calls + 1 })
              (
                (counted w1 (w1.failed_calls + 1) h, inl closed),
                (same_bytes, (same_buf, inr (refl, omega (arith, none_failed)))),
              )))

  -- OpenNextLog of a writer whose file is open: the next file is a new one.
  open_new :
      (fuel : ℕ) (w : LogWriter)
      → w.is_open ≡ true
      → AreSized w
      → w.buf ≡ buf
      → all_bytes w.files ≡ all_bytes files
      → w.failed_calls ≡ n
      → Returns (Ready n files buf) (open_next_log disk (suc fuel) w)
  open_new fuel w on h same_buf same_bytes none_failed =
      let w1 = at_file w (w.file_num + 1) in
      let new : current w1 ≡ [] =
        bytes_of-beyond (w.file_num + 1) w.files (let l = h.last_file in omega (arith, l)) in
      let empty : position (reopened w1) ≡ 0 =
        ap (λ l. length l) (bytes_of-put_file (w.file_num + 1) (current w1) w.files ∙ new) in
      let b = h.block_some in
      let f = h.file_some in
      open_step fuel w w1 (next_file_lem w on) refl
        (at_file-AreSized w (w.file_num + 1) (omega arith) h) same_buf same_bytes none_failed
        (λ full.
          absurd (no_full w.block_size w.blocks_per_file (position (reopened w1)) b f empty full))
    where
      no_full : (b n p : ℕ) → 1 ≤ b → 1 ≤ n → p ≡ 0 → (p == b * n) ≡ true → ⊥
      no_full (suc b) (suc n) p h k e full =
          let same : p ≡ suc b * suc n = (==_iff p (suc b * suc n)).0 full in omega (arith, same, e)
      no_full zero n p h k e full = absurd (omega (arith, h))
      no_full (suc b) zero p h k e full = absurd (omega (arith, k))

  -- OpenNextLog opens a file with room, or a call of the system fails.
  pub open_next-Ready :
      (w : LogWriter)
      → AreSized w
      → w.buf ≡ buf
      → all_bytes w.files ≡ all_bytes files
      → w.failed_calls ≡ n
      → Returns (Ready n files buf) (open_next disk w)
  open_next-Ready w h same_buf same_bytes none_failed = elim (Bool-cases w.is_open) [
    | inl on ↦ open_new (suc (length w.files)) w on h same_buf same_bytes none_failed
    | inr closed ↦
        let w1 = at_file w w.file_num in
        let k = at_file-AreSized w w.file_num (omega arith) h in
        open_step (suc (length w.files)) w w1 (same_file_lem w closed) refl k same_buf same_bytes
          none_failed
          λ full.
            open_new (length w.files) (reopened w1) refl (reopened-AreSized w1 k) same_buf
              (all_bytes-put_same w1.file_num w1.files k.last_file ∙ same_bytes) none_failed
  ]
