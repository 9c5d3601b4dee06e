-- ===== src/Logio/Run.antt =====
-- A LogWriter of io/logio/logio.cc under any calls.
use whisperlib.Prelude.{
  ℕ, zero, ◌-◌, ◌≤◌, ◌≡◌, refl, sym, ap, ◌∙◌, subst, inl, inr, Bool, true, false, Bool-cases,
  if◌then◌else◌, List, [], ◌∷◌, ◌++◌, length, length-append, arith,
}
use mathlib.Core.List.{append_assoc, append-nil}
use whisperlib.Prelude.Outcome.{
  Outcome, done, abort, starved, ◌>>=◌, Returns, Returns-bind, Returns-mono, Returns-pure,
  Returns-branch, Ensures, Ensures-bind, Ensures-mono, Ensures-branch, Ensures-pure,
}
use whisperlib.Recordio.Writer.{Zlib, RecordWriter, is_empty, append_buffer, finalize_content}
use whisperlib.Logio.Files.{Files, all_bytes, Each}
use whisperlib.Logio.Multiples.{IsWhole, IsWhole-add}
use whisperlib.Logio.Growing.{IsFit, Recorded, Grown, append_buffer-Recorded, finalize-Emptied}
use whisperlib.Logio.Writer.{
  Disk, LogWriter, clear_recorder, close_log, open_next, write_buffer, initialize_writer,
  add_record, write_record, finalize, flush_writer, close_writer,
}
use whisperlib.Logio.Sound.{AreSized, IsFile, IsSound, Ready, open_next-Ready}
use whisperlib.Logio.Draining.{logged, Drained, IsUntorn, write_buffer-Untorn}

pub data LogCall : Type 0 where
  writes_record : (bytes : List ℕ) → LogCall
  flushes closes : LogCall

-- A sound writer whose log goes on from this one.
abbrev pub Follows : List ℕ → LogWriter → Type 0
Follows log w = IsSound w × ((more : List ℕ) × (logged w ≡ log ++ more))

ensures : {A : Type 0} (P : A → Type 0) (m : Outcome A) → Returns P m → Ensures P m
unfolding Returns Ensures
ensures P (done a) h = h
ensures P abort h = elim h [ ]
ensures P starved h = elim h [ ]

module _ (disk : Disk) (zlib : Zlib) where
  unfoldable pub log_call : LogWriter → LogCall → Outcome LogWriter
  log_call w (writes_record bytes) = do (ok, w1) ← write_record disk zlib w bytes; done w1
  log_call w flushes = do (ok, w1) ← flush_writer disk zlib w; done w1
  log_call w closes = close_writer disk zlib w

  unfoldable pub run : LogWriter → List LogCall → Outcome LogWriter
  run w [] = done w
  run w (c ∷ cs) = do w1 ← log_call w c; run w1 cs

  -- A new recorder and what it added to buf_.
  Grown-Follows :
      (w : LogWriter) (recorder : RecordWriter) (buf : List ℕ)
      → IsSound w
      → Grown w.recorder w.buf (recorder, buf)
      → Follows (logged w) (record w { recorder = recorder; buf = buf })
  Grown-Follows w recorder buf h g =
      let k = h.0 in
      let size : w.recorder.block_size ≡ w.block_size = k.recorder_size in
      (
        (
          record {
            block_some = k.block_some;
            file_some = k.file_some;
            recorder_size = g.1.0 ∙ size;
            recorder_ok = g.0;
            files_ok = k.files_ok;
            last_file = k.last_file;
            buf_whole =
                subst (λ n. IsWhole w.block_size n)
                  (sym (ap (λ l. length l) g.1.1.1.0 ∙ length-append w.buf g.1.1.0))
                  (IsWhole-add w.block_size (length w.buf) (length g.1.1.0) k.buf_whole
                    (subst (λ s. IsWhole s (length g.1.1.0)) size g.1.1.1.1));
          },
          h.1,
        ),
        (
          g.1.1.0,
          ap (λ l. all_bytes w.files ++ l) g.1.1.1.0
              ∙ sym (append_assoc (all_bytes w.files) w.buf g.1.1.0),
        ),
      )

  Follows-trans :
      (log : List ℕ) (w v : LogWriter) → Follows log w → Follows (logged w) v → Follows log v
  Follows-trans log w v h k =
      (k.0, (h.1.0 ++ k.1.0, k.1.1 ∙ ap (λ l. l ++ k.1.0) h.1.1 ∙ append_assoc log h.1.0 k.1.0))

  Drained-Follows :
      (w : LogWriter) (r : Bool × LogWriter)
      → Drained w.failed_calls (logged w) r
      → Follows (logged w) r.1
  Drained-Follows w r t = (t.0, ([], t.1.0 ∙ sym (append-nil (logged w))))

  Ready-Follows :
      (w : LogWriter) (r : Bool × LogWriter)
      → Ready w.failed_calls w.files w.buf r
      → Follows (logged w) r.1
  Ready-Follows w r t = (
    t.0,
    (
      [],
      ap (λ l. l ++ r.1.buf) t.1.0
          ∙ ap (λ l. all_bytes w.files ++ l) t.1.1.0
          ∙ sym (append-nil (logged w)),
    ),
  )

  module _ (untorn : IsUntorn disk) where
    add_record-Follows :
        (w : LogWriter) (bytes : List ℕ)
        → IsSound w
        → w.is_open ≡ true
        → Returns (λ r. Follows (logged w) r.1) (add_record disk zlib w bytes)
    unfolding add_record
    add_record-Follows w bytes h on =
        let Q = λ (r : Bool × LogWriter). Follows (logged w) r.1 in
        Returns-bind (Recorded zlib w.recorder w.buf) Q (append_buffer zlib w.recorder bytes w.buf)
          _ (append_buffer-Recorded zlib w.recorder bytes w.buf h.0.recorder_ok)
          (λ a g.
            let w1 : LogWriter = record w { recorder = a.0; buf = a.1 } in
            let f = Grown-Follows w a.0 a.1 h g in
            Returns-branch Q a.2 _ _
              (λ any.
                Returns-mono (Drained w1.failed_calls (logged w1)) Q _
                  (write_buffer-Untorn disk w1 untorn f.0 on)
                  (λ r t. Follows-trans (logged w) w1 r.1 f (Drained-Follows w1 r t)))
              (λ no. Returns-pure Q (true, w1) f))

    write_record-Follows :
        (w : LogWriter) (bytes : List ℕ)
        → IsSound w
        → Returns (λ r. Follows (logged w) r.1) (write_record disk zlib w bytes)
    unfolding write_record
    write_record-Follows w bytes h =
        let Q = λ (r : Bool × LogWriter). Follows (logged w) r.1 in
        Returns-branch Q w.is_open _ _ (λ on. add_record-Follows w bytes h on)
          (λ closed.
            Returns-bind (Ready w.failed_calls w.files w.buf) Q (open_next disk w) _
              (open_next-Ready disk w.failed_calls w.files w.buf w h.0 refl refl refl)
              (λ a t.
                Returns-branch Q a.0 _ _
                  (λ ok. elim (t.1.1.1) [
                    | inl opens ↦
                        Returns-mono (λ r. Follows (logged a.1) r.1) Q _
                          (add_record-Follows a.1 bytes t.0 opens.1.0)
                          (λ r f. Follows-trans (logged w) a.1 r.1 (Ready-Follows w a t) f)
                    | inr fails ↦ absurd (let f = fails.0 in cc)
                  ])
                  (λ no. Returns-pure Q (false, a.1) (Ready-Follows w a t))))

    finalize-Follows :
        (w : LogWriter)
        → IsSound w
        → Returns
            (λ v. Follows (logged w) v × ((v.is_open ≡ w.is_open) × (v.recorder.content ≡ [])))
            (finalize disk zlib w)
    unfolding finalize
    finalize-Follows w h =
        let Q = λ (v : LogWriter).
          Follows (logged w) v × ((v.is_open ≡ w.is_open) × (v.recorder.content ≡ [])) in
        let room = h.0.recorder_ok.1 in
        Returns-bind (λ r. Grown w.recorder w.buf r × (r.0.content ≡ [])) Q
          (finalize_content zlib w.recorder w.buf) _
          (finalize-Emptied zlib w.recorder w.buf h.0.recorder_ok.0 (omega (arith, room)))
          (λ a g. Returns-pure Q _ (Grown-Follows w a.0 a.1 h g.0, (refl, g.1)))

    -- WriteBuffer of a file that is not open fails a CHECK.
    no_file :
        (w : LogWriter)
        → w.is_open ≡ false
        → Ensures (λ r. Follows (logged w) r.1) (write_buffer disk w)
    unfolding write_buffer Ensures
    no_file w closed = rw (closed) tt

    write_buffer-Follows :
        (w : LogWriter) → IsSound w → Ensures (λ r. Follows (logged w) r.1) (write_buffer disk w)
    write_buffer-Follows w h =
        let Q = λ (r : Bool × LogWriter). Follows (logged w) r.1 in
        elim (Bool-cases w.is_open) [
          | inl on ↦ ensures Q (write_buffer disk w) (
              Returns-mono (Drained w.failed_calls (logged w)) Q _
                (write_buffer-Untorn disk w untorn h on) (λ r t. Drained-Follows w r t))
          | inr closed ↦ no_file w closed
        ]

    flush_writer-Follows :
        (w : LogWriter)
        → IsSound w
        → Ensures (λ r. Follows (logged w) r.1) (flush_writer disk zlib w)
    unfolding flush_writer
    flush_writer-Follows w h =
        let Q = λ (r : Bool × LogWriter). Follows (logged w) r.1 in
        let P = λ (v : LogWriter).
          Follows (logged w) v × ((v.is_open ≡ w.is_open) × (v.recorder.content ≡ [])) in
        Ensures-bind P Q (finalize disk zlib w) _ (ensures P _ (finalize-Follows w h)) λ v t.
          Ensures-branch Q (is_empty v.buf) _ _ (λ e. Ensures-pure Q (true, v) t.0)
            λ e.
              Ensures-mono (λ r. Follows (logged v) r.1) Q _ (write_buffer-Follows v t.0.0)
                (λ r f. Follows-trans (logged w) v r.1 t.0 f)

    close_log-Follows : (log : List ℕ) (w : LogWriter) → Follows log w → Follows log (close_log w)
    unfolding close_log clear_recorder
    close_log-Follows log w h = elim (Bool-cases w.is_open) [
      | inl on ↦ rw (on) (
        (
          record {
            block_some = h.0.0.block_some;
            file_some = h.0.0.file_some;
            recorder_size = h.0.0.recorder_size;
            recorder_ok = h.0.0.recorder_ok;
            files_ok = h.0.0.files_ok;
            last_file = h.0.0.last_file;
            buf_whole = h.0.0.buf_whole;
          },
          inl refl,
        ),
        h.1,
      )
      | inr closed ↦
          let same : close_log w ≡ w =
            ap
              (λ b.
                if b then record w { recorder = clear_recorder w.recorder; is_open = false } else w)
              closed in
          subst (Follows log) (sym same) h
    ]

    close_writer-Follows :
        (w : LogWriter) → IsSound w → Ensures (Follows (logged w)) (close_writer disk zlib w)
    unfolding close_writer
    close_writer-Follows w h =
        let Q = Follows (logged w) in
        let P = λ (v : LogWriter).
          Follows (logged w) v × ((v.is_open ≡ w.is_open) × (v.recorder.content ≡ [])) in
        Ensures-branch Q w.is_open _ _
          (λ on.
            Ensures-bind P Q (finalize disk zlib w) _ (ensures P _ (finalize-Follows w h)) λ v t.
              Ensures-bind (λ r. Follows (logged v) r.1) Q (write_buffer disk v) _
                (write_buffer-Follows v t.0.0)
                λ r f.
                  Ensures-pure Q (close_log r.1)
                    (close_log-Follows (logged w) r.1 (Follows-trans (logged w) v r.1 t.0 f)))
          (λ closed. Ensures-pure Q w (h, ([], sym (append-nil (logged w)))))

    log_call-Follows :
        (w : LogWriter) (c : LogCall) → IsSound w → Ensures (Follows (logged w)) (log_call w c)
    unfolding log_call
    log_call-Follows w (writes_record bytes) h =
        let P = λ (r : Bool × LogWriter). Follows (logged w) r.1 in
        Ensures-bind P (Follows (logged w)) (write_record disk zlib w bytes) _
          (ensures P _ (write_record-Follows w bytes h))
          (λ r f. Ensures-pure (Follows (logged w)) r.1 f)
    log_call-Follows w flushes h =
        Ensures-bind (λ r. Follows (logged w) r.1) (Follows (logged w)) (flush_writer disk zlib w) _
          (flush_writer-Follows w h) (λ r f. Ensures-pure (Follows (logged w)) r.1 f)
    log_call-Follows w closes h = close_writer-Follows w h

    run-Sound :
        (log : List ℕ) (w : LogWriter) (cs : List LogCall)
        → Follows log w
        → Ensures (Follows log) (run w cs)
    unfolding run
    run-Sound log w [] h = Ensures-pure (Follows log) w h
    run-Sound log w (c ∷ cs) h =
        Ensures-bind (Follows (logged w)) (Follows log) (log_call w c) _ (log_call-Follows w c h.0)
          λ v f. run-Sound log v cs (Follows-trans log w v h f)

-- A LogWriter starts on a directory whose files have whole blocks, and no more than a file has, with a
-- recorder that does not compress; then records are written, and Flush and Close are called, in any order,
-- whatever the calls of the system answer, but that no write fails after a part of it was written (as the
-- first of the 16 KB pieces of File::Write may be). No loop runs on for ever, and where no CHECK fails: all files
-- are still of that kind, the file that is open has room and is the last one, and the bytes of the files,
-- followed by those of buf_, begin with all bytes that the files had.
pub run-Follows :
    (disk : Disk) (zlib : Zlib) (block_size blocks_per_file : ℕ) (recorder : RecordWriter)
    (files : Files) (cs : List LogCall)
    → IsUntorn disk
    → 1 ≤ block_size
    → 1 ≤ blocks_per_file
    → recorder.block_size ≡ block_size
    → IsFit recorder
    → Each (IsFile block_size blocks_per_file) files
    → Ensures (Follows (all_bytes files)) (
        initialize_writer disk block_size blocks_per_file recorder files >>= λ r.
        run disk zlib r.1 cs)
unfolding initialize_writer
run-Follows disk zlib block_size blocks_per_file recorder files cs untorn b n size fit ok =
    let w : LogWriter = record {
      block_size = block_size;
      blocks_per_file = blocks_per_file;
      file_num = length files - 1;
      is_open = false;
      files = files;
      buf = [];
      recorder = recorder;
      time = 0;
      failed_calls = 0;
    } in
    let sized : AreSized w = record {
      block_some = b;
      file_some = n;
      recorder_size = size;
      recorder_ok = fit;
      files_ok = ok;
      last_file = omega arith;
      buf_whole = (zero, omega arith);
    } in
    let P = Ready 0 files [] in
    Ensures-bind P (Follows (all_bytes files)) (open_next disk w) _
      (ensures P _ (open_next-Ready disk 0 files [] w sized refl refl refl))
      λ r t.
        run-Sound disk zlib untorn (all_bytes files) r.1 cs
          (t.0, ([], ap (λ l. l ++ r.1.buf) t.1.0 ∙ ap (λ l. all_bytes files ++ l) t.1.1.0))
