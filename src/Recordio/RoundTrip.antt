-- ===== src/Recordio/RoundTrip.antt =====
-- Records that the writer of io/logio/recordio.cc writes are read back by its reader.
use whisperlib.Prelude.{
  ℕ, suc, ◌+◌, ◌^◌, ◌≤◌, ◌<◌, lt→ltb, ◌≡◌, refl, sym, ap, ◌∙◌, subst, false, List, [], ◌∷◌, ◌++◌,
  length, arith,
}
use mathlib.Core.List.{append_assoc, append-nil}
use whisperlib.Prelude.Outcome.{Outcome, done, ◌>>=◌, Returns, Returns-bind, Returns-mono}
use whisperlib.Recordio.Writer.{
  Zlib, RecordWriter, new_writer, size_minus, block_trailer_end, maximum_record_block_size,
  append_buffer, finalize_content,
}
use whisperlib.Recordio.Reader.{read_no_data, new_reader}
use whisperlib.Recordio.Pieces.{
  Piece, Records, none_left, one_more, encode, blocks, last_crc, join, AreBlocks,
}
use whisperlib.Recordio.Writing.{Wrote, Closed, finalize-Wrote, no_piece}
use whisperlib.Recordio.Appending.{HasRoom, Appended, append_buffer-Appended}
use whisperlib.Recordio.Sequence.{read_all, read_all-Records}

module _ (zlib : Zlib) where
  -- AppendRecord of each record, and FinalizeContent.
  unfoldable pub write_all :
      RecordWriter → (out : List ℕ) → List (List ℕ) → Outcome (RecordWriter × List ℕ)
  write_all w out [] = finalize_content zlib w out
  write_all w out (r ∷ rs) = append_buffer zlib w r out >>= λ t. write_all t.0 t.1 rs

  abbrev Whole : List (List ℕ) → RecordWriter → List Piece → RecordWriter × List ℕ → Type 0
  Whole rs w ps r = (qs : List Piece) × (Records rs qs × Closed zlib w (ps ++ qs) r)

  write_all-Whole :
      (rs : List (List ℕ)) (w : RecordWriter) (out : List ℕ) (ps : List Piece)
      → w.deflates ≡ false
      → Wrote zlib w out ps
      → HasRoom w
      → w.dumpable_size + 17 ≤ w.block_size
      → w.block_size < 2 ^ 24
      → Returns (Whole rs w ps) (write_all w out rs)
  unfolding write_all
  write_all-Whole [] w out ps plain h r d k =
      Returns-mono (Closed zlib w ps) (Whole [] w ps) _ (finalize-Wrote zlib w out ps h)
        λ c g. ([], (none_left, (subst (λ l. Wrote zlib c.0 c.1 l) (sym (append-nil ps)) g.0, g.1)))
  write_all-Whole (b ∷ rs) w out ps plain h r d k =
      Returns-bind (Appended zlib b w ps) (Whole (b ∷ rs) w ps) (append_buffer zlib w b out) _
        (append_buffer-Appended zlib w b out ps plain h r d k)
        (λ a t.
          let sizes = t.1.1.1.1 in
          let block : a.0.block_size ≡ w.block_size = sizes.0 in
          let dumps : a.0.dumpable_size ≡ w.dumpable_size = sizes.1.0 in
          Returns-mono (Whole rs a.0 (ps ++ t.0)) (Whole (b ∷ rs) w ps) _
            (write_all-Whole rs a.0 a.1 (ps ++ t.0) (sizes.1.1 ∙ plain) t.1.1.0 t.1.1.1.0
              (omega (arith, block, dumps, d)) (omega (arith, block, k)))
            (λ c g. (
              t.0 ++ g.0,
              (
                one_more b rs t.0 g.0 t.1.0 g.1.0,
                (
                  subst (λ l. Wrote zlib c.0 c.1 l) (append_assoc ps t.0 g.0) g.1.1.0,
                  (
                    g.1.1.1.0,
                    (g.1.1.1.1.0 ∙ sizes.0, (g.1.1.1.1.1.0 ∙ sizes.1.0, g.1.1.1.1.1.1 ∙ sizes.1.1)),
                  ),
                ),
              ),
            )))

  module _ (crc_bound : (bs : List ℕ) → zlib.crc32 bs < 2 ^ 32) (block_size : ℕ)
      (small : block_size < 2 ^ 24) where
    read_back :
        (rs : List (List ℕ)) (ps : List Piece) (w : RecordWriter) (out : List ℕ)
        → Records rs ps
        → Wrote zlib w out ps
        → w.content ≡ []
        → w.block_size ≡ block_size
        → 1 ≤ block_size
        → read_all zlib (suc (length rs)) (new_reader block_size) out ≡ done (rs, read_no_data)
    unfolding new_reader encode
    read_back rs ps w out k h e b one =
        let none_pending : h.pending ≡ [] = no_piece zlib h.pending (sym h.content_eq ∙ e) in
        read_all-Records zlib block_size crc_bound small one (suc (length rs)) rs ps
          (new_reader block_size) out k
          (record {
            here = [];
            later = h.closed;
            rest_eq =
                h.pieces_eq
                ∙ ap (λ l. join h.closed ++ l) none_pending
                ∙ append-nil (join h.closed);
            content_eq = refl;
            input_eq = h.out_eq ∙ ap (λ n. blocks zlib n 0 h.closed) b;
            size_eq = refl;
            skip_eq = refl;
            crc_small = omega arith;
            pieces_ok = tt;
            blocks_ok = subst (λ n. AreBlocks n h.closed) b h.closed_ok;
          })
          refl (omega arith)

abbrev started : (block_size dumpable_size : ℕ) → RecordWriter
started block_size dumpable_size = record {
  block_size = block_size;
  dumpable_size = dumpable_size;
  deflates = false;
  content = [];
  content_record_count = 0;
  prev_block_crc = 0;
}

fresh :
    (zlib : Zlib) (block_size dumpable_size : ℕ)
    → 17 ≤ block_size
    → Wrote zlib (started block_size dumpable_size) [] []
unfolding encode blocks last_crc
fresh zlib block_size dumpable_size h = record {
  closed = [];
  pending = [];
  pieces_eq = refl;
  content_eq = refl;
  out_eq = refl;
  crc_eq = refl;
  closed_ok = tt;
  pending_ok = tt;
  pending_fits = omega (arith, h);
}

new_writer-started :
    (block_size : ℕ) (percent : ℕ → ℕ)
    → block_size < maximum_record_block_size
    → new_writer block_size false percent
      ≡ done (started block_size (percent (size_minus block_size block_trailer_end)))
unfolding new_writer
new_writer-started block_size percent small =
    let fits = lt→ltb block_size maximum_record_block_size small in rw (fits)

-- A writer without compression, whose blocks have a size in range and are closed before a header and a
-- byte do not fit any more (as with the default of 9/10), writes any records, empty ones too; and the
-- reader, on what was written, gives these records, byte for byte and in their order, and then that there
-- is no more data. Of zlib it is only used that crc32 gives 32 bits.
pub read_all-write_all :
    (zlib : Zlib) (block_size : ℕ) (percent : ℕ → ℕ) (rs : List (List ℕ))
    → ((bs : List ℕ) → zlib.crc32 bs < 2 ^ 32)
    → block_size < maximum_record_block_size
    → percent (size_minus block_size block_trailer_end) + 17 ≤ block_size
    → Returns
        (λ r. read_all zlib (suc (length rs)) (new_reader block_size) r.1 ≡ done (rs, read_no_data))
        (new_writer block_size false percent >>= λ w. write_all zlib w [] rs)
read_all-write_all zlib block_size percent rs crc_bound small d =
    rw (new_writer-started block_size percent small) (
      Returns-mono
        (Whole zlib rs (started block_size (percent (size_minus block_size block_trailer_end))) [])
        _ _
        (write_all-Whole zlib rs
          (started block_size (percent (size_minus block_size block_trailer_end))) [] [] refl
          (fresh zlib block_size (percent (size_minus block_size block_trailer_end))
            (omega (arith, d)))
          (omega (arith, d)) d (omega (arith, small)))
        (λ r t.
          read_back zlib crc_bound block_size (omega (arith, small)) rs t.0 r.0 r.1 t.1.0 t.1.1.0
            t.1.1.1.0 t.1.1.1.1.0 (omega (arith, d))))
