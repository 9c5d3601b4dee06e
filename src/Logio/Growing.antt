-- ===== src/Logio/Growing.antt =====
-- What the recorder of a LogWriter (io/logio/recordio.cc) adds to buf_: whole blocks.
use whisperlib.Prelude.{
  ℕ, zero, suc, ◌+◌, ◌^◌, ◌≤◌, ◌<◌, ltb, leb, leb→le, ◌≡◌, refl, sym, ap, ◌∙◌, subst, Bool, true,
  false, List, [], ◌∷◌, ◌++◌, length, length-append, length-take, length-drop, take, drop,
  replicate, length-replicate, arith,
}
use mathlib.Core.List.{append_assoc, append-nil}
use whisperlib.Prelude.Outcome.{
  Returns, Returns-bind, Returns-mono, Returns-pure, Returns-branch, Returns-check,
}
use whisperlib.NumStreaming.{big_endian, write_int32, write_number}
use whisperlib.NumStreaming.RoundTrip.{length-write_number}
use whisperlib.Recordio.Writer.{
  Zlib, RecordWriter, has_cont, first_flag, is_empty, size_minus, available, write_piece,
  block_body, close_block, finalize_content, dump, append_buffer_loop, append_buffer,
}
use whisperlib.Recordio.Appending.{HasRoom, available_lem, length-content_after}
use whisperlib.Logio.Multiples.{IsWhole, IsWhole-add}

-- No compression, and blocks that are closed before a header and a byte do not fit any more.
abbrev pub IsPlain : RecordWriter → Type 0
IsPlain w = (w.deflates ≡ false) × ((w.dumpable_size + 17 ≤ w.block_size) × (w.block_size < 2 ^ 24))

abbrev pub IsFit : RecordWriter → Type 0
IsFit w = IsPlain w × HasRoom w

-- Whole blocks at the end.
abbrev pub Adds : (block_size : ℕ) → (out out' : List ℕ) → Type 0
Adds block_size out out' =
    (more : List ℕ) × ((out' ≡ out ++ more) × IsWhole block_size (length more))

Adds-none : (block_size : ℕ) (out : List ℕ) → Adds block_size out out
Adds-none block_size out = ([], (sym (append-nil out), (zero, omega arith)))

Adds-trans :
    (block_size : ℕ) (a b c : List ℕ)
    → Adds block_size a b
    → Adds block_size b c
    → Adds block_size a c
Adds-trans block_size a b c h k = (
  h.0 ++ k.0,
  (
    k.1.0 ∙ ap (λ l. l ++ k.0) h.1.0 ∙ append_assoc a h.0 k.0,
    subst (λ n. IsWhole block_size n) (sym (length-append h.0 k.0))
        (IsWhole-add block_size (length h.0) (length k.0) h.1.1 k.1.1),
  ),
)

-- The recorder is as it was but for its content, and `out` grew.
abbrev pub Grown : RecordWriter → List ℕ → RecordWriter × List ℕ → Type 0
Grown w out r = IsFit r.0 × ((r.0.block_size ≡ w.block_size) × Adds w.block_size out r.1)

module _ (zlib : Zlib) where
  length-close_block :
      (block_size prev_crc : ℕ) (content : List ℕ)
      → length content + 12 ≤ block_size
      → block_size < 2 ^ 24
      → length (close_block zlib block_size prev_crc content) ≡ block_size
  unfolding close_block block_body write_int32
  length-close_block block_size prev_crc content fits small =
      let pad = size_minus (size_minus block_size (length content)) 12 in
      let padded = content ++ replicate pad 0 in
      let l1 = length-append content (replicate pad 0) in
      let l2 = length-replicate {A = ℕ} pad 0 in
      let sized = write_number big_endian 4 (length content) padded in
      let l3 = length-write_number big_endian 4 (length content) padded in
      let body = write_number big_endian 4 prev_crc sized in
      let l4 = length-write_number big_endian 4 prev_crc sized in
      let l5 = length-write_number big_endian 4 (zlib.crc32 body) body in
      omega (arith, l1, l2, l3, l4, l5, fits, small)

  abbrev Emptied : RecordWriter → List ℕ → RecordWriter × List ℕ → Type 0
  Emptied w out r = Grown w out r × (r.0.content ≡ [])

  nil_of : (l : List ℕ) → is_empty l ≡ true → l ≡ []
  nil_of [] h = refl
  nil_of (b ∷ bs) h = cc

  pub finalize-Emptied :
      (w : RecordWriter) (out : List ℕ)
      → IsPlain w
      → length w.content + 12 ≤ w.block_size
      → Returns (Emptied w out) (finalize_content zlib w out)
  unfolding finalize_content
  finalize-Emptied w out plain fits =
      let d = plain.1.0 in
      Returns-branch (Emptied w out) (is_empty w.content) _ _
        (λ e.
          let none = nil_of w.content e in
          let size = ap (λ l. length l) none in
          Returns-pure (Emptied w out) (w, out)
            (((plain, omega (arith, d, size)), (refl, Adds-none w.block_size out)), none))
        (λ e.
          Returns-check (Emptied w out) (leb (length w.content + 12) w.block_size) _
            (ground (arith, fits))
            (Returns-pure (Emptied w out) _ (
              (
                (plain, omega (arith, d)),
                (
                  refl,
                  (
                    close_block zlib w.block_size w.prev_block_crc w.content,
                    (
                      refl,
                      (
                        suc zero,
                        (let l =
                              length-close_block w.block_size w.prev_block_crc w.content fits
                                plain.1.1 in
                            omega (arith, l)),
                      ),
                    ),
                  ),
                ),
              ),
              refl,
            )))

  -- The writer within its block, and `out` grew.
  abbrev Appended : RecordWriter → List ℕ → RecordWriter × List ℕ × ℕ → Type 0
  Appended w out r =
      (IsPlain r.0 × (length r.0.content + 12 ≤ r.0.block_size))
      × ((r.0.block_size ≡ w.block_size) × Adds w.block_size out r.1)

  append_buffer_loop-Appended :
      (fuel : ℕ) (w : RecordWriter) (buffer out : List ℕ) (first : Bool) (n : ℕ)
      → IsFit w
      → length buffer < fuel
      → Returns (Appended w out) (append_buffer_loop zlib fuel w buffer out first n)
  unfolding append_buffer_loop write_piece
  append_buffer_loop-Appended zero w buffer out first n h f = absurd (omega (arith, f))
  append_buffer_loop-Appended (suc fuel) w buffer out first n h f =
      let small = h.0.1.1 in
      let room = h.1 in
      let a = available_lem w h.1 small in
      Returns-branch (Appended w out) (leb (length buffer) (available w)) _ _
        (λ e.
          let fits = leb→le (length buffer) (available w) e in
          let size = length-content_after w (first_flag first) buffer in
          Returns-pure (Appended w out) _
            ((h.0, omega (arith, size, fits, a, room)), (refl, Adds-none w.block_size out)))
        (λ e.
          let chunk = take (available w) buffer in
          let w1 = write_piece w (has_cont + first_flag first) chunk in
          let more_than : available w < length buffer = ground (arith, e) in
          let lc = length-take (available w) buffer in
          let ll = length-drop (available w) buffer in
          let size = length-content_after w (has_cont + first_flag first) chunk in
          Returns-bind (Emptied w1 out) (Appended w out) (finalize_content zlib w1 out) _
            (finalize-Emptied w1 out h.0 (omega (arith, size, lc, more_than, a, room)))
            (λ c g.
              Returns-mono (Appended c.0 c.1) (Appended w out) _
                (append_buffer_loop-Appended fuel c.0 (drop (available w) buffer) c.1 false (n + 1)
                  g.0.0 (omega (arith, f, ll, more_than, a, room)))
                (λ r t. (
                  t.0,
                  (
                    t.1.0 ∙ g.0.1.0,
                    Adds-trans w.block_size out c.1 r.1 g.0.1.1
                        (subst (λ s. Adds s c.1 r.1) g.0.1.0 t.1.1),
                  ),
                ))))

  -- AppendRecord(buffer, size, out)
  abbrev pub Recorded : RecordWriter → List ℕ → RecordWriter × List ℕ × Bool → Type 0
  Recorded w out r = IsFit r.0 × ((r.0.block_size ≡ w.block_size) × Adds w.block_size out r.1)

  dump-Recorded :
      (w : RecordWriter) (out : List ℕ) (n : ℕ)
      → IsPlain w
      → length w.content + 12 ≤ w.block_size
      → Returns (Recorded w out) (dump zlib w out n)
  unfolding dump
  dump-Recorded w out n plain fits =
      Returns-branch (Recorded w out) (ltb w.dumpable_size (length w.content)) _ _
        (λ e.
          Returns-bind (Emptied w out) (Recorded w out) (finalize_content zlib w out) _
            (finalize-Emptied w out plain fits) (λ c g. Returns-pure (Recorded w out) _ g.0))
        (λ e.
          let d = plain.1.0 in
          let few : length w.content ≤ w.dumpable_size = ground (arith, e) in
          Returns-pure (Recorded w out) _
            ((plain, omega (arith, few, d)), (refl, Adds-none w.block_size out)))

  pub append_buffer-Recorded :
      (w : RecordWriter) (buffer out : List ℕ)
      → IsFit w
      → Returns (Recorded w out) (append_buffer zlib w buffer out)
  unfolding append_buffer
  append_buffer-Recorded w buffer out h =
      Returns-branch (Recorded w out) w.deflates _ _ (λ e. let p = h.0.0 in absurd cc)
        λ e.
          Returns-bind (Appended w out) (Recorded w out)
            (append_buffer_loop zlib (suc (suc (length buffer))) w buffer out true 0) _
            (append_buffer_loop-Appended (suc (suc (length buffer))) w buffer out true 0 h
              (omega arith))
            (λ c g.
              Returns-mono (Recorded c.0 c.1) (Recorded w out) _
                (dump-Recorded c.0 c.1 c.2 g.0.0 g.0.1)
                (λ r t. (
                  t.0,
                  (
                    t.1.0 ∙ g.1.0,
                    Adds-trans w.block_size out c.1 r.1 g.1.1
                        (subst (λ s. Adds s c.1 r.1) g.1.0 t.1.1),
                  ),
                )))
