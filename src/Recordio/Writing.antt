-- ===== src/Recordio/Writing.antt =====
-- What AppendRecord of io/logio/recordio.cc writes: blocks of pieces, which make up the records.
use whisperlib.Prelude.{
  ℕ, ◌+◌, ◌≤◌, leb, ◌≡◌, refl, sym, ap, ◌∙◌, true, false, List, [], ◌∷◌, ◌++◌, length,
  length-append, arith,
}
use mathlib.Core.List.{append_assoc, append-nil}
use whisperlib.Prelude.Outcome.{Returns, Returns-pure, Returns-branch, Returns-check}
use whisperlib.NumStreaming.{big_endian, little_endian, write_byte, write_uint24, write_number}
use whisperlib.Recordio.Writer.{
  Zlib, RecordWriter, block_trailer_end, is_empty, write_piece, block_body, close_block,
  finalize_content,
}
use whisperlib.Recordio.Pieces.{
  Piece, encode_piece, encode, blocks, last_crc, crc_of, join, join-append_one, blocks-append_one,
  last_crc-append_one, ArePieces, IsBlock, AreBlocks, AreBlocks-append_one, encode-append,
  length-encode_piece,
}

pub ArePieces-append : (ps qs : List Piece) → ArePieces ps → ArePieces qs → ArePieces (ps ++ qs)
ArePieces-append [] qs h k = k
ArePieces-append (p ∷ ps) qs h k = (h.0, (h.1.0, ArePieces-append ps qs h.1.1 k))

nil_of : (l : List ℕ) → is_empty l ≡ true → l ≡ []
nil_of [] h = refl
nil_of (b ∷ bs) h = cc

module _ (zlib : Zlib) where
  -- What was written: the closed blocks, and the pieces that wait for the end of their block.
  pub record Wrote (w : RecordWriter) (out : List ℕ) (ps : List Piece) : Type 0 where
    pub closed : List (List Piece)
    pub pending : List Piece
    pub pieces_eq : ps ≡ join closed ++ pending
    pub content_eq : w.content ≡ encode pending
    pub out_eq : out ≡ blocks zlib w.block_size 0 closed
    pub crc_eq : w.prev_block_crc ≡ last_crc zlib w.block_size 0 closed
    pub closed_ok : AreBlocks w.block_size closed
    pub pending_ok : ArePieces pending
    pub pending_fits : length (encode pending) + block_trailer_end ≤ w.block_size

  -- The writer has the sizes of this one, and bytes of a record fit its block.
  abbrev pub SameSizes : (w w' : RecordWriter) → Type 0
  SameSizes w w' =
      (w'.block_size ≡ w.block_size)
      × ((w'.dumpable_size ≡ w.dumpable_size) × (w'.deflates ≡ w.deflates))

  pub content_after :
      (w : RecordWriter) (flags : ℕ) (bytes : List ℕ) (ps : List Piece)
      → w.content ≡ encode ps
      → (write_piece w flags bytes).content
        ≡ encode (ps ++ record { flags = flags; bytes = bytes } ∷ [])
  unfolding write_piece encode encode_piece write_uint24 write_byte write_number
  content_after w flags bytes ps e =
      let p : Piece = record { flags = flags; bytes = bytes } in
      let a = write_number little_endian 1 flags [] in
      let b = write_number big_endian 3 (length bytes) [] in
      ap (λ l. l ++ a ++ b ++ bytes) e
      ∙ append_assoc (encode ps ++ a) b bytes
      ∙ append_assoc (encode ps) a (b ++ bytes)
      ∙ ap (λ l. encode ps ++ l) (sym (append_assoc a b bytes))
      ∙ ap (λ l. encode ps ++ l) (sym (append-nil (encode_piece p)))
      ∙ sym (encode-append ps (p ∷ []))

  some_piece : (ps : List Piece) → is_empty (encode ps) ≡ false → 1 ≤ length ps
  unfolding encode
  some_piece [] h = cc
  some_piece (p ∷ ps) h = omega arith

  pub no_piece : (ps : List Piece) → encode ps ≡ [] → ps ≡ []
  unfolding encode
  no_piece [] h = refl
  no_piece (p ∷ ps) h = absurd (
      omega (
        arith,
        ap (λ l. length l) h,
        length-append (encode_piece p) (encode ps),
        length-encode_piece p,
      ))

  -- The content that a block closes.
  abbrev pub Closed : RecordWriter → List Piece → RecordWriter × List ℕ → Type 0
  Closed w ps r = Wrote r.0 r.1 ps × ((r.0.content ≡ []) × SameSizes w r.0)

  pub finalize-Wrote :
      (w : RecordWriter) (out : List ℕ) (ps : List Piece)
      → Wrote w out ps
      → Returns (Closed w ps) (finalize_content zlib w out)
  unfolding finalize_content crc_of encode
  finalize-Wrote w out ps h =
      Returns-branch (Closed w ps) (is_empty w.content) _ _
        (λ e. Returns-pure (Closed w ps) (w, out) (h, (nil_of w.content e, (refl, (refl, refl)))))
        (λ e.
          let b = h.pending in
          let ok : IsBlock w.block_size b =
            (some_piece b (ap is_empty (sym h.content_eq) ∙ e), (h.pending_ok, h.pending_fits)) in
          let fits : leb (length w.content + block_trailer_end) w.block_size ≡ true =
            (let c = ap (λ l. length l) h.content_eq in
              let f = h.pending_fits in ground (arith, c, f)) in
          Returns-check (Closed w ps) (leb (length w.content + block_trailer_end) w.block_size) _
            fits
            (Returns-pure (Closed w ps) _ (
              record {
                closed = h.closed ++ b ∷ [];
                pending = [];
                pieces_eq =
                    h.pieces_eq
                    ∙ sym (append-nil (join h.closed ++ b))
                    ∙ ap (λ l. l ++ []) (sym (join-append_one h.closed b));
                content_eq = refl;
                out_eq =
                    ap (λ l. l ++ close_block zlib w.block_size w.prev_block_crc w.content) h.out_eq
                    ∙ ap
                        (λ l.
                          blocks zlib w.block_size 0 h.closed
                          ++ close_block zlib w.block_size w.prev_block_crc l)
                        h.content_eq
                    ∙ ap
                        (λ l.
                          blocks zlib w.block_size 0 h.closed
                          ++ close_block zlib w.block_size l (encode b))
                        h.crc_eq
                    ∙ sym (blocks-append_one zlib w.block_size 0 h.closed b);
                crc_eq =
                    ap (λ l. zlib.crc32 (block_body zlib w.block_size w.prev_block_crc l))
                      h.content_eq
                    ∙ ap (λ l. zlib.crc32 (block_body zlib w.block_size l (encode b))) h.crc_eq
                    ∙ sym (last_crc-append_one zlib w.block_size 0 h.closed b);
                closed_ok = AreBlocks-append_one w.block_size h.closed b h.closed_ok ok;
                pending_ok = tt;
                pending_fits = (let f = h.pending_fits in omega (arith, f));
              },
              (refl, (refl, (refl, refl))),
            )))
