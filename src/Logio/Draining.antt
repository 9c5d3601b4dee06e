-- ===== src/Logio/Draining.antt =====
-- WriteBuffer of io/logio/logio.cc: the bytes of buf_ go to the files, in their order, and none is lost.
use whisperlib.Prelude.{
  ℕ, zero, suc, ◌+◌, ◌-◌, ◌%◌, ◌≤◌, ◌<◌, min, ltb, ◌==◌, ==_iff, ◌≡◌, refl, sym, ap, ◌∙◌, subst,
  ◌⊎◌, inl, inr, Bool, true, false, not, ◌||◌, if◌then◌else◌, Bool-cases, List, [], ◌∷◌, ◌++◌,
  length, length-append, length-take, length-drop, take, drop, take-append-drop, arith,
}
use mathlib.Core.List.{append_assoc, append-nil}
use whisperlib.Prelude.Outcome.{
  done, branch, Returns, Returns-bind, Returns-branch, Returns-check, Returns-mono, Returns-pure,
}
use whisperlib.Recordio.Writer.{is_empty}
use whisperlib.Logio.Files.{
  Files, bytes_of, put_file, truncate, truncate-append, all_bytes, all_bytes-put_file,
  all_bytes-put_same, bytes_of-put_file,
}
use whisperlib.Logio.Multiples.{IsWhole, IsWhole-add, IsWhole-sub, IsWhole-min, IsWhole-mod}
use whisperlib.Logio.Writer.{
  Disk, WriteResult, wrote, failed, written, LogWriter, file_size, current, position, open_next,
  write_loop, write_buffer,
}
use whisperlib.Logio.Sound.{
  AreSized, IsSound, HasRoom, Ready, current_ok, replace_last, not_full, open_next-Ready,
}

-- All bytes that the recorder gave: those in the files, and those that wait.
abbrev pub logged : LogWriter → List ℕ
logged w = all_bytes w.files ++ w.buf

-- All bytes are there, and the files have whole blocks: nothing waits any more and no call of the system
-- failed, or one did.
abbrev pub Drained : (n : ℕ) → (log : List ℕ) → Bool × LogWriter → Type 0
Drained n log r =
    IsSound r.1
    × ((logged r.1 ≡ log)
        × (((r.0 ≡ true) × ((r.1.buf ≡ []) × (r.1.failed_calls ≡ n)))
            ⊎ ((r.0 ≡ false) × (r.1.failed_calls ≡ n + 1))))

-- A write failed after it wrote bytes: they are in the last file, after those of the files before it, and
-- in buf_ as well.
pub record Torn (disk : Disk) (n : ℕ) (log : List ℕ) (r : Bool × LogWriter) : Type 0 where
  pub refused : r.0 ≡ false
  pub failed_eq : r.1.failed_calls ≡ n + 1
  pub before : List ℕ
  pub torn_off : ℕ
  pub some_torn : 1 ≤ torn_off
  pub files_eq : all_bytes r.1.files ≡ before ++ take torn_off r.1.buf
  pub log_eq : before ++ r.1.buf ≡ log
  pub time : ℕ
  pub size : ℕ
  pub cause : (k : ℕ) × ((disk.writes time size ≡ failed k) × (1 ≤ k))

abbrev pub Outcomes : Disk → (n : ℕ) → (log : List ℕ) → Bool × LogWriter → Type 0
Outcomes disk n log r = Drained n log r ⊎ Torn disk n log r

nil_of : (l : List ℕ) → is_empty l ≡ true → l ≡ []
nil_of [] h = refl
nil_of (b ∷ bs) h = cc

some_of : (l : List ℕ) → is_empty l ≡ false → 1 ≤ length l
some_of [] h = cc
some_of (b ∷ bs) h = omega arith

-- The first bytes that wait, written.
abbrev appended : LogWriter → (cb : ℕ) → LogWriter
appended w cb = record w {
  files = put_file w.file_num (current w ++ take cb w.buf) w.files;
  buf = drop cb w.buf;
  time = w.time + 1;
}

abbrev to_write : LogWriter → ℕ
to_write w = min (file_size w - position w) (length w.buf)

module _ (disk : Disk) where
  appended-AreSized : (w : LogWriter) → AreSized w → AreSized (appended w (to_write w))
  appended-AreSized w h =
      let ok = current_ok w h in
      let n = to_write w in
      let part : length (take n w.buf) ≡ n = omega (arith, length-take n w.buf) in
      let whole_file : IsWhole w.block_size (file_size w) = (w.blocks_per_file, omega arith) in
      let whole : IsWhole w.block_size n =
        IsWhole-min w.block_size (file_size w - position w) (length w.buf)
          (IsWhole-sub w.block_size (file_size w) (position w) whole_file ok.0) h.buf_whole in
      let both = length-append (current w) (take n w.buf) in
      let long : length (current w ++ take n w.buf) ≡ position w + n = omega (arith, both, part) in
      let fits = ok.1 in
      let k = replace_last w (current w ++ take n w.buf) h (
        subst (λ x. IsWhole w.block_size x × (x ≤ file_size w)) (sym long)
          (IsWhole-add w.block_size (position w) n ok.0 whole, omega (arith, fits))) in
      let left = length-drop n w.buf in
      record {
        block_some = k.block_some;
        file_some = k.file_some;
        recorder_size = k.recorder_size;
        recorder_ok = k.recorder_ok;
        files_ok = k.files_ok;
        last_file = k.last_file;
        buf_whole =
            subst (λ x. IsWhole w.block_size x) (sym left)
              (IsWhole-sub w.block_size (length w.buf) n h.buf_whole whole);
      }

  logged-appended : (w : LogWriter) (cb : ℕ) → AreSized w → logged (appended w cb) ≡ logged w
  logged-appended w cb h =
      ap (λ l. l ++ drop cb w.buf)
        (all_bytes-put_file w.file_num (take cb w.buf) w.files h.last_file)
      ∙ append_assoc (all_bytes w.files) (take cb w.buf) (drop cb w.buf)
      ∙ ap (λ l. all_bytes w.files ++ l) (take-append-drop cb w.buf)

  -- A write that is not complete is undone.
  undone :
      (w : LogWriter) (cb : ℕ)
      → put_file w.file_num (truncate (position w) (current w ++ take cb w.buf)) w.files
        ≡ put_file w.file_num (current w) w.files
  undone w cb =
      ap (λ l. put_file w.file_num l w.files) (truncate-append (current w) (take cb w.buf))

  later :
      (w : LogWriter) (files : Files)
      → AreSized (record w { files = files })
      → AreSized (record w { files = files; time = w.time + 1; failed_calls = w.failed_calls + 1 })
  later w files h = record {
    block_some = h.block_some;
    file_some = h.file_some;
    recorder_size = h.recorder_size;
    recorder_ok = h.recorder_ok;
    files_ok = h.files_ok;
    last_file = h.last_file;
    buf_whole = h.buf_whole;
  }

  good_size :
      (w : LogWriter)
      → AreSized w
      → (not (position w % w.block_size == 0) || ltb (file_size w) (position w)) ≡ false
  good_size w h =
      let whole = IsWhole-mod w.block_size (position w) (current_ok w h).0 in
      let fits = (current_ok w h).1 in
      let e : (position w % w.block_size == 0) ≡ true = ap (λ x. x == 0) whole in
      let f : ltb (file_size w) (position w) ≡ false = ground (arith, fits) in rw (e, f)

  -- What was written in part is cut off.
  cut_off : (w : LogWriter) (cb : ℕ) → LogWriter
  cut_off w cb = record w {
    files = put_file w.file_num (truncate (position w) (current w ++ take cb w.buf)) w.files;
    time = w.time + 1;
    failed_calls = w.failed_calls + 1;
  }

  part-Drained :
      (w : LogWriter) (cb : ℕ)
      → AreSized w
      → position w < file_size w
      → Drained w.failed_calls (logged w) (false, cut_off w cb)
  unfolding cut_off
  part-Drained w cb h room =
      let files =
        put_file w.file_num (truncate (position w) (current w ++ take cb w.buf)) w.files in
      let same = undone w cb in
      let k =
        subst (λ x. AreSized (record w { files = x })) (sym same)
          (replace_last w (current w) h (current_ok w h)) in
      let size : length (bytes_of w.file_num files) ≡ position w =
        ap (λ x. length (bytes_of w.file_num x)) same
        ∙ ap (λ l. length l) (bytes_of-put_file w.file_num (current w) w.files) in
      (
        (later w files k, inr (omega (arith, size, room))),
        (
          ap (λ l. l ++ w.buf)
              (ap all_bytes same ∙ all_bytes-put_same w.file_num w.files h.last_file),
          inr (refl, refl),
        ),
      )

  -- A write that fails, after it wrote nothing or something.
  torn : (w : LogWriter) (cb : ℕ) → LogWriter
  torn w cb = record w {
    files = put_file w.file_num (current w ++ take cb w.buf) w.files;
    time = w.time + 1;
    failed_calls = w.failed_calls + 1;
  }

  none_torn :
      (w : LogWriter)
      → AreSized w
      → position w < file_size w
      → Drained w.failed_calls (logged w) (false, torn w 0)
  unfolding torn
  none_torn w h room =
      let same : put_file w.file_num (current w ++ []) w.files
          ≡ put_file w.file_num (current w) w.files =
        ap (λ l. put_file w.file_num l w.files) (append-nil (current w)) in
      let files = put_file w.file_num (current w ++ []) w.files in
      let k =
        subst (λ x. AreSized (record w { files = x })) (sym same)
          (replace_last w (current w) h (current_ok w h)) in
      let size : length (bytes_of w.file_num files) ≡ position w =
        ap (λ x. length (bytes_of w.file_num x)) same
        ∙ ap (λ l. length l) (bytes_of-put_file w.file_num (current w) w.files) in
      (
        (later w files k, inr (omega (arith, size, room))),
        (
          ap (λ l. l ++ w.buf)
              (ap all_bytes same ∙ all_bytes-put_same w.file_num w.files h.last_file),
          inr (refl, refl),
        ),
      )

  failed-Outcomes :
      (w : LogWriter) (k cb : ℕ)
      → disk.writes w.time (to_write w) ≡ failed k
      → min k (to_write w) ≡ cb
      → AreSized w
      → position w < file_size w
      → Outcomes disk w.failed_calls (logged w) (false, torn w cb)
  unfolding torn
  failed-Outcomes w k zero e m h room = inl (none_torn w h room)
  failed-Outcomes w k (suc cb) e m h room = inr (record {
    refused = refl;
    failed_eq = refl;
    before = all_bytes w.files;
    torn_off = suc cb;
    some_torn = omega arith;
    files_eq = all_bytes-put_file w.file_num (take (suc cb) w.buf) w.files h.last_file;
    log_eq = refl;
    time = w.time;
    size = to_write w;
    cause = (k, (e, omega (arith, m)));
  })

  -- The writer after a round.
  abbrev Went : LogWriter → Bool × LogWriter → Type 0
  Went w v =
      ((v.0 ≡ true)
        × (AreSized v.1
            × ((logged v.1 ≡ logged w)
                × ((length v.1.buf < length w.buf)
                    × ((v.1.is_open ≡ w.is_open) × (v.1.failed_calls ≡ w.failed_calls))))))
      ⊎ ((v.0 ≡ false) × Outcomes disk w.failed_calls (logged w) (false, v.1))

  written-Went :
      (w : LogWriter) (o : WriteResult)
      → disk.writes w.time (to_write w) ≡ o
      → AreSized w
      → position w < file_size w
      → 1 ≤ length w.buf
      → Went w (written w (to_write w) o)
  unfolding written torn cut_off
  written-Went w (failed k) e h room some_left =
      inr (refl, failed-Outcomes w k (min k (to_write w)) e refl h room)
  written-Went w (wrote cb) e h room some_left =
      let choose : Bool → Bool × LogWriter =
        λ b. if b then (true, appended w cb) else (false, cut_off w cb) in
      elim (Bool-cases (cb == to_write w)) [
        | inl all ↦
            let exact : cb ≡ to_write w = (==_iff cb (to_write w)).0 all in
            let went : Went w (true, appended w cb) = inl (
              refl,
              (
                subst (λ n. AreSized (appended w n)) (sym exact) (appended-AreSized w h),
                (
                  logged-appended w cb h,
                  (omega (arith, length-drop cb w.buf, exact, some_left, room), (refl, refl)),
                ),
              ),
            ) in
            subst (Went w) (sym (ap choose all)) went
        | inr part ↦
            subst (Went w) (sym (ap choose part)) (inr (refl, inl (part-Drained w cb h room)))
      ]

  -- The file that is open has room.
  room_of : (r : LogWriter) → HasRoom r → r.is_open ≡ true → position r < file_size r
  room_of r (inl closed) on = absurd cc
  room_of r (inr room) on = room

  -- After a full file: the loop goes on if the next one could be opened.
  go_on :
      (fuel : ℕ) (w : LogWriter) (n : ℕ) (log : List ℕ) (r : Bool × LogWriter)
      → ((v : LogWriter)
          → AreSized v
          → position v < file_size v
          → v.is_open ≡ true
          → length v.buf < fuel
          → Returns (Outcomes disk v.failed_calls (logged v)) (write_loop disk fuel v))
      → Ready n w.files w.buf r
      → logged w ≡ log
      → length w.buf < fuel
      → Returns (Outcomes disk n log) (branch r.0 (write_loop disk fuel r.1) (done (false, r.1)))
  go_on fuel w n log r hyp t same left =
      let kept : logged r.1 ≡ log =
        ap (λ l. l ++ r.1.buf) t.1.0 ∙ ap (λ l. all_bytes w.files ++ l) t.1.1.0 ∙ same in
      let size = ap (λ l. length l) t.1.1.0 in
      Returns-branch (Outcomes disk n log) r.0 _ _
        (λ ok. elim (t.1.1.1) [
          | inl opens ↦
              subst (λ m. Returns (Outcomes disk m log) (write_loop disk fuel r.1)) opens.1.1
                (subst (λ l. Returns (Outcomes disk r.1.failed_calls l) (write_loop disk fuel r.1))
                  kept
                  (hyp r.1 t.0.0 (room_of r.1 t.0.1 opens.1.0) opens.1.0
                    (omega (arith, size, left))))
          | inr fails ↦ absurd (let f = fails.0 in cc)
        ])
        (λ no. elim (t.1.1.1) [
          | inl opens ↦ absurd (let f = opens.0 in cc)
          | inr fails ↦
              Returns-pure (Outcomes disk n log) (false, r.1)
                (inl (t.0, (kept, inr (refl, fails.1))))
        ])

  write_loop-Outcomes :
      (fuel : ℕ) (w : LogWriter)
      → AreSized w
      → position w < file_size w
      → w.is_open ≡ true
      → length w.buf < fuel
      → Returns (Outcomes disk w.failed_calls (logged w)) (write_loop disk fuel w)
  unfolding write_loop
  write_loop-Outcomes zero w h room on f = absurd (omega (arith, f))
  write_loop-Outcomes (suc fuel) w h room on f =
      let Q = Outcomes disk w.failed_calls (logged w) in
      Returns-branch Q (is_empty w.buf) _ _
        (λ e.
          Returns-pure Q (true, w)
            (inl ((h, inr room), (refl, inl (refl, (nil_of w.buf e, refl))))))
        (λ e.
          Returns-branch Q (not (position w % w.block_size == 0) || ltb (file_size w) (position w))
            _ _ (λ bad. let good = good_size w h in absurd cc)
            (λ good.
              let o = disk.writes w.time (to_write w) in
              let v = written w (to_write w) o in
              let went = written-Went w o refl h room (some_of w.buf e) in
              Returns-branch Q v.0 _ _
                (λ all. elim went [
                  | inl t ↦
                      let left : length v.1.buf < fuel =
                        (let l = t.1.1.1.0 in omega (arith, l, f)) in
                      let opened = t.1.1.1.1.0 ∙ on in
                      let counts = t.1.1.1.1.1 in
                      let same = t.1.1.0 in
                      Returns-branch Q (position v.1 == file_size v.1) _ _
                        (λ full.
                          Returns-bind (Ready w.failed_calls v.1.files v.1.buf) Q
                            (open_next disk v.1) _
                            (open_next-Ready disk w.failed_calls v.1.files v.1.buf v.1 t.1.0 refl
                              refl counts)
                            (λ r u.
                              go_on fuel v.1 w.failed_calls (logged w) r (write_loop-Outcomes fuel)
                                u same left))
                        (λ free.
                          subst
                            (λ m. Returns (Outcomes disk m (logged w)) (write_loop disk fuel v.1))
                            counts
                            (subst
                              (λ l.
                                Returns (Outcomes disk v.1.failed_calls l)
                                  (write_loop disk fuel v.1))
                              same
                              (write_loop-Outcomes fuel v.1 t.1.0 (not_full v.1 t.1.0 free) opened
                                left)))
                  | inr t ↦ absurd (let f = t.0 in cc)
                ])
                (λ part. elim went [
                  | inl t ↦ absurd (let f = t.0 in cc)
                  | inr t ↦ Returns-pure Q (false, v.1) t.1
                ])))

  pub write_buffer-Drained :
      (w : LogWriter)
      → IsSound w
      → w.is_open ≡ true
      → Returns
          (λ r. Drained w.failed_calls (logged w) r ⊎ Torn disk w.failed_calls (logged w) r)
          (write_buffer disk w)
  unfolding write_buffer
  write_buffer-Drained w h on =
      Returns-check (Outcomes disk w.failed_calls (logged w)) w.is_open _ on
        (write_loop-Outcomes (suc (length w.buf)) w h.0 (room_of w h.1 on) on (omega arith))

  -- No write fails after a part of it was written.
  abbrev pub IsUntorn : Type 0
  IsUntorn = (time size k : ℕ) → disk.writes time size ≡ failed k → k ≡ 0

  pub write_buffer-Untorn :
      (w : LogWriter)
      → IsUntorn
      → IsSound w
      → w.is_open ≡ true
      → Returns (Drained w.failed_calls (logged w)) (write_buffer disk w)
  write_buffer-Untorn w whole h on =
      Returns-mono (Outcomes disk w.failed_calls (logged w)) (Drained w.failed_calls (logged w)) _
        (write_buffer-Drained w h on)
        (λ r t. elim t [
          | inl d ↦ d
          | inr torn ↦
              let c = torn.cause in
              let z = whole torn.time torn.size c.0 c.1.0 in
              let some_bytes = c.1.1 in absurd (omega (arith, z, some_bytes))
        ])
