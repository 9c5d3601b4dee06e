-- ===== src/Recordio/Appending.antt =====
-- The loops of AppendRecord of io/logio/recordio.cc: the pieces that they add for a record.
use whisperlib.Prelude.{
  ℕ, zero, suc, ◌+◌, ◌-◌, ◌^◌, ◌≤◌, ◌<◌, ltb, leb, ◌≡◌, refl, ap, ◌∙◌, subst, Bool, true, false,
  List, [], ◌∷◌, ◌++◌, length, length-append, length-take, length-drop, leb→le, take, drop,
  take-append-drop, arith,
}
use mathlib.Core.List.{append_assoc}
use whisperlib.Prelude.Outcome.{Returns, Returns-bind, Returns-mono, Returns-pure, Returns-branch}
use whisperlib.NumStreaming.{big_endian, little_endian, write_byte, write_uint24, write_number}
use whisperlib.Recordio.Writer.{
  Zlib, RecordWriter, has_cont, first_flag, available, write_piece, finalize_content, dump,
  append_buffer_loop, append_buffer,
}
use whisperlib.Recordio.Pieces.{Piece, Pieces, last, more, join}
use whisperlib.NumStreaming.RoundTrip.{length-write_number}
use whisperlib.Recordio.Writing.{
  Wrote, Closed, SameSizes, content_after, finalize-Wrote, ArePieces-append,
}

-- A byte of a record fits the block at least.
abbrev pub HasRoom : RecordWriter → Type 0
HasRoom w = length w.content + 17 ≤ w.block_size

pub available_lem :
    (w : RecordWriter)
    → HasRoom w
    → w.block_size < 2 ^ 24
    → available w ≡ w.block_size - 16 - length w.content
unfolding available
available_lem w h k = omega (arith, h, k)

pub length-content_after :
    (w : RecordWriter) (flags : ℕ) (bytes : List ℕ)
    → length (write_piece w flags bytes).content ≡ length w.content + 4 + length bytes
unfolding write_piece write_uint24 write_byte
length-content_after w flags bytes =
    let one = write_number little_endian 1 flags w.content in
    omega (
      arith,
      length-append (write_number big_endian 3 (length bytes) one) bytes,
      length-write_number big_endian 3 (length bytes) one,
      length-write_number little_endian 1 flags w.content,
    )

module _ (zlib : Zlib) where
  -- A piece joins those that wait.
  add_piece :
      (w : RecordWriter) (out : List ℕ) (ps : List Piece) (flags : ℕ) (bytes : List ℕ)
      → Wrote zlib w out ps
      → flags < 256
      → length bytes < 2 ^ 24
      → length w.content + 16 + length bytes ≤ w.block_size
      → Wrote zlib
          (write_piece w flags bytes)
          out
          (ps ++ record { flags = flags; bytes = bytes } ∷ [])
  unfolding write_piece
  add_piece w out ps flags bytes h f l r =
      let p : Piece = record { flags = flags; bytes = bytes } in
      let c = content_after zlib w flags bytes h.pending h.content_eq in
      record {
        closed = h.closed;
        pending = h.pending ++ p ∷ [];
        pieces_eq =
            ap (λ x. x ++ p ∷ []) h.pieces_eq ∙ append_assoc (join h.closed) h.pending (p ∷ []);
        content_eq = c;
        out_eq = h.out_eq;
        crc_eq = h.crc_eq;
        closed_ok = h.closed_ok;
        pending_ok = ArePieces-append h.pending (p ∷ []) h.pending_ok (f, (l, tt));
        pending_fits = omega (arith, r, ap (λ x. length x) c, length-content_after w flags bytes);
      }

  -- The pieces of a record were added.
  abbrev pub Added : Bool → List ℕ → RecordWriter → List Piece → RecordWriter × List ℕ × ℕ → Type 0
  Added first bytes w ps r =
      (qs : List Piece) × (Pieces first bytes qs
        × (Wrote zlib r.0 r.1 (ps ++ qs) × SameSizes zlib w r.0))

  flags_small : (first : Bool) → (first_flag first < 256) × (has_cont + first_flag first < 256)
  flags_small true = (omega arith, omega arith)
  flags_small false = (omega arith, omega arith)

  pub append_buffer_loop-Added :
      (fuel : ℕ) (w : RecordWriter) (buffer out : List ℕ) (first : Bool) (n : ℕ) (ps : List Piece)
      → Wrote zlib w out ps
      → HasRoom w
      → w.block_size < 2 ^ 24
      → length buffer < fuel
      → Returns (Added first buffer w ps) (append_buffer_loop zlib fuel w buffer out first n)
  unfolding append_buffer_loop write_piece
  append_buffer_loop-Added zero w buffer out first n ps h r k f = absurd (omega (arith, f))
  append_buffer_loop-Added (suc fuel) w buffer out first n ps h r k f =
      let a = available_lem w r k in
      Returns-branch (Added first buffer w ps) (leb (length buffer) (available w)) _ _
        (λ e.
          let fits = leb→le (length buffer) (available w) e in
          Returns-pure (Added first buffer w ps) _ (
            record { flags = first_flag first; bytes = buffer } ∷ [],
            (
              last first buffer,
              (
                add_piece w out ps (first_flag first) buffer h (flags_small first).0
                    (omega (arith, fits, a, k)) (omega (arith, fits, a, r)),
                (refl, (refl, refl)),
              ),
            ),
          ))
        (λ e.
          let chunk = take (available w) buffer in
          let left = drop (available w) buffer in
          let flags = has_cont + first_flag first in
          let p : Piece = record { flags = flags; bytes = chunk } in
          let w1 = write_piece w flags chunk in
          let more_than : available w < length buffer = ground (arith, e) in
          let lc : length chunk ≡ available w =
            omega (arith, length-take (available w) buffer, more_than) in
          let ll = length-drop (available w) buffer in
          let h1 =
            add_piece w out ps flags chunk h (flags_small first).1 (omega (arith, lc, a, k))
              (omega (arith, lc, a, r)) in
          Returns-bind (Closed zlib w1 (ps ++ p ∷ [])) (Added first buffer w ps)
            (finalize_content zlib w1 out) _ (finalize-Wrote zlib w1 out (ps ++ p ∷ []) h1)
            (λ c1 g.
              let size : c1.0.block_size ≡ w.block_size = g.1.1.0 in
              let room : HasRoom c1.0 = omega (arith, ap (λ l. length l) g.1.0, size, r) in
              Returns-mono (Added false left c1.0 (ps ++ p ∷ [])) (Added first buffer w ps) _
                (append_buffer_loop-Added fuel c1.0 left c1.1 false (n + 1) (ps ++ p ∷ []) g.0 room
                  (omega (arith, size, k)) (omega (arith, f, ll, more_than, a, r)))
                (λ c2 t. (
                  p ∷ t.0,
                  (
                    subst (λ b. Pieces first b (p ∷ t.0)) (take-append-drop (available w) buffer)
                        (more first chunk left t.0 (omega (arith, lc, a, r)) t.1.0),
                    (
                      subst (λ l. Wrote zlib c2.0 c2.1 l) (append_assoc ps (p ∷ []) t.0) t.1.1.0,
                      (t.1.1.1.0 ∙ g.1.1.0, (t.1.1.1.1.0 ∙ g.1.1.1.0, t.1.1.1.1.1 ∙ g.1.1.1.1)),
                    ),
                  ),
                ))))

  -- The end of AppendRecord: what was written stays, and there is room for the next record.
  abbrev pub Dumped : RecordWriter → List Piece → RecordWriter × List ℕ × Bool → Type 0
  Dumped w ps r = Wrote zlib r.0 r.1 ps × (HasRoom r.0 × SameSizes zlib w r.0)

  pub dump-Dumped :
      (w : RecordWriter) (out : List ℕ) (n : ℕ) (ps : List Piece)
      → Wrote zlib w out ps
      → w.dumpable_size + 17 ≤ w.block_size
      → Returns (Dumped w ps) (dump zlib w out n)
  unfolding dump
  dump-Dumped w out n ps h d =
      Returns-branch (Dumped w ps) (ltb w.dumpable_size (length w.content)) _ _
        (λ e.
          Returns-bind (Closed zlib w ps) (Dumped w ps) (finalize_content zlib w out) _
            (finalize-Wrote zlib w out ps h)
            (λ c g.
              let size = g.1.1.0 in
              Returns-pure (Dumped w ps) _
                (g.0, (omega (arith, ap (λ l. length l) g.1.0, size, d), g.1.1))))
        (λ e.
          let small : length w.content ≤ w.dumpable_size = ground (arith, e) in
          Returns-pure (Dumped w ps) _ (h, (omega (arith, small, d), (refl, (refl, refl)))))

  -- AppendRecord(buffer, size, out) without compression.
  abbrev pub Appended : List ℕ → RecordWriter → List Piece → RecordWriter × List ℕ × Bool → Type 0
  Appended bytes w ps r =
      (qs : List Piece) × (Pieces true bytes qs
        × (Wrote zlib r.0 r.1 (ps ++ qs) × (HasRoom r.0 × SameSizes zlib w r.0)))

  pub append_buffer-Appended :
      (w : RecordWriter) (buffer out : List ℕ) (ps : List Piece)
      → w.deflates ≡ false
      → Wrote zlib w out ps
      → HasRoom w
      → w.dumpable_size + 17 ≤ w.block_size
      → w.block_size < 2 ^ 24
      → Returns (Appended buffer w ps) (append_buffer zlib w buffer out)
  unfolding append_buffer
  append_buffer-Appended w buffer out ps plain h r d k =
      Returns-branch (Appended buffer w ps) w.deflates _ _ (λ e. absurd cc)
        λ e.
          Returns-bind (Added true buffer w ps) (Appended buffer w ps)
            (append_buffer_loop zlib (suc (suc (length buffer))) w buffer out true 0) _
            (append_buffer_loop-Added (suc (suc (length buffer))) w buffer out true 0 ps h r k
              (omega arith))
            (λ a t.
              let sizes = t.1.1.1 in
              let block : a.0.block_size ≡ w.block_size = sizes.0 in
              let dumps : a.0.dumpable_size ≡ w.dumpable_size = sizes.1.0 in
              Returns-mono (Dumped a.0 (ps ++ t.0)) (Appended buffer w ps) _
                (dump-Dumped a.0 a.1 a.2 (ps ++ t.0) t.1.1.0 (omega (arith, block, dumps, d)))
                (λ c g. (
                  t.0,
                  (
                    t.1.0,
                    (
                      g.0,
                      (g.1.0, (g.1.1.0 ∙ sizes.0, (g.1.1.1.0 ∙ sizes.1.0, g.1.1.1.1 ∙ sizes.1.1))),
                    ),
                  ),
                )))
