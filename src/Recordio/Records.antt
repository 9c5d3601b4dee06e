-- ===== src/Recordio/Records.antt =====
-- ReadRecord of io/logio/recordio.cc on blocks that the writer closed.
use whisperlib.Prelude.{
  ℕ, ◌^◌, ◌≤◌, ◌<◌, ◌≡◌, refl, sym, ap, ◌∙◌, subst, true, false, none, List, [], ◌∷◌, ◌++◌, length,
  length-append, arith,
}
use mathlib.Core.List.{nil≢cons, head-eq_of_cons-eq, tail-eq_of_cons-eq}
use whisperlib.Prelude.Outcome.{done, branch}
use whisperlib.Recordio.Writer.{Zlib, is_empty, block_body}
use whisperlib.Recordio.Pieces.{
  Piece, encode_piece, encode, blocks, crc_of, join, AreBlocks, ArePieces, length-encode_piece,
}
use whisperlib.Recordio.Reader.{Reading, fill}
use whisperlib.Recordio.Reading.{read_block}

module _ (zlib : Zlib) (block_size : ℕ) where
  -- The reader is at these pieces: the rest of its content, and the blocks of the input.
  pub record At (rest : List Piece) (s : Reading) : Type 0 where
    pub here : List Piece
    pub later : List (List Piece)
    pub rest_eq : rest ≡ here ++ join later
    pub content_eq : s.reader.content ≡ encode here
    pub input_eq : s.input ≡ blocks zlib block_size s.reader.prev_block_crc later
    pub size_eq : s.reader.block_size ≡ block_size
    pub skip_eq : s.reader.skip_record ≡ false
    pub crc_small : s.reader.prev_block_crc < 2 ^ 32
    pub pieces_ok : ArePieces here
    pub blocks_ok : AreBlocks block_size later

  -- The same, with the first piece in the content.
  pub record Front (p : Piece) (rest : List Piece) (s : Reading) : Type 0 where
    pub here : List Piece
    pub later : List (List Piece)
    pub rest_eq : rest ≡ here ++ join later
    pub content_eq : s.reader.content ≡ encode_piece p ++ encode here
    pub input_eq : s.input ≡ blocks zlib block_size s.reader.prev_block_crc later
    pub size_eq : s.reader.block_size ≡ block_size
    pub skip_eq : s.reader.skip_record ≡ false
    pub crc_small : s.reader.prev_block_crc < 2 ^ 32
    pub piece_ok : (p.flags < 256) × (length p.bytes < 2 ^ 24)
    pub pieces_ok : ArePieces here
    pub blocks_ok : AreBlocks block_size later

  -- What a step leaves as it is.
  abbrev pub Unread : (s s' : Reading) → Type 0
  Unread s s' =
      (s'.reader.record_content ≡ s.reader.record_content)
      × ((s'.out ≡ s.out) × (s'.num_skipped ≡ s.num_skipped))

encode_cons : (p : Piece) (ps : List Piece) → encode (p ∷ ps) ≡ encode_piece p ++ encode ps
unfolding encode
encode_cons p ps = refl

pub is_empty_no : (bs : List ℕ) → 1 ≤ length bs → is_empty bs ≡ false
is_empty_no [] h = absurd (omega (arith, h))
is_empty_no (b ∷ bs) h = refl

pub length-encode_front : (p : Piece) (ps : List Piece) → 4 ≤ length (encode_piece p ++ encode ps)
length-encode_front p ps =
    omega (arith, length-append (encode_piece p) (encode ps), length-encode_piece p)

module _ (zlib : Zlib) (crc_bound : (bs : List ℕ) → zlib.crc32 bs < 2 ^ 32) (block_size : ℕ)
    (small : block_size < 2 ^ 24) where
  abbrev pub Filled : Piece → List Piece → Reading → Type 0
  Filled p rest s =
      (s1 : Reading) × ((fill zlib s ≡ done (s1, none))
        × (Front zlib block_size p rest s1 × Unread zlib block_size s s1))

  fill_content :
      (p : Piece) (rest ps : List Piece) (later : List (List Piece)) (s : Reading)
      → rest ≡ ps ++ join later
      → s.reader.content ≡ encode (p ∷ ps)
      → ArePieces (p ∷ ps)
      → At zlib block_size (p ∷ rest) s
      → s.input ≡ blocks zlib block_size s.reader.prev_block_crc later
      → AreBlocks block_size later
      → Filled p rest s
  unfolding fill branch encode
  fill_content p rest ps later s e c k a i b =
      let full : is_empty s.reader.content ≡ false =
        ap is_empty c
        ∙ is_empty_no (encode_piece p ++ encode ps) (omega (arith, length-encode_front p ps)) in
      (
        s,
        (
          rw (full) refl,
          (
            record {
              here = ps;
              later = later;
              rest_eq = e;
              content_eq = c;
              input_eq = i;
              size_eq = a.size_eq;
              skip_eq = a.skip_eq;
              crc_small = a.crc_small;
              piece_ok = (k.0, k.1.0);
              pieces_ok = k.1.1;
              blocks_ok = b;
            },
            (refl, (refl, refl)),
          ),
        ),
      )

  fill_block :
      (p : Piece) (rest ps : List Piece) (later : List (List Piece)) (s : Reading)
      → rest ≡ ps ++ join later
      → s.reader.content ≡ []
      → At zlib block_size (p ∷ rest) s
      → s.input ≡ blocks zlib block_size s.reader.prev_block_crc ((p ∷ ps) ∷ later)
      → AreBlocks block_size ((p ∷ ps) ∷ later)
      → Filled p rest s
  unfolding fill branch blocks crc_of
  fill_block p rest ps later s e c a i b =
      let prev = s.reader.prev_block_crc in
      let crc = crc_of zlib block_size prev (p ∷ ps) in
      let tail = blocks zlib block_size crc later in
      let read =
        read_block zlib block_size prev (encode (p ∷ ps)) s.reader tail a.size_eq refl b.0.1.1 small
          a.crc_small (crc_bound (block_body zlib block_size prev (encode (p ∷ ps)))) in
      let s1 : Reading = record s {
        reader = record (s.reader) { prev_block_crc = crc; content = encode (p ∷ ps) };
        input = tail;
      } in
      (
        s1,
        (
          (let none_yet : is_empty s.reader.content ≡ true = ap is_empty c in
              rw (none_yet, i, read, c) refl),
          (
            record {
              here = ps;
              later = later;
              rest_eq = e;
              content_eq = encode_cons p ps;
              input_eq = refl;
              size_eq = a.size_eq;
              skip_eq = a.skip_eq;
              crc_small = crc_bound (block_body zlib block_size prev (encode (p ∷ ps)));
              piece_ok = (b.0.1.0.0, b.0.1.0.1.0);
              pieces_ok = b.0.1.0.1.1;
              blocks_ok = b.1;
            },
            (refl, (refl, refl)),
          ),
        ),
      )

  fill_from :
      (p : Piece) (rest here : List Piece) (later : List (List Piece)) (s : Reading)
      → p ∷ rest ≡ here ++ join later
      → s.reader.content ≡ encode here
      → ArePieces here
      → At zlib block_size (p ∷ rest) s
      → s.input ≡ blocks zlib block_size s.reader.prev_block_crc later
      → AreBlocks block_size later
      → Filled p rest s
  unfolding encode
  fill_from p rest [] [] s e c k a i b = absurd (nil≢cons (sym e))
  fill_from p rest [] ([] ∷ later) s e c k a i b = absurd (omega (arith, b.0.0))
  fill_from p rest [] ((q ∷ qs) ∷ later) s e c k a i b =
      let same : q ≡ p = sym (head-eq_of_cons-eq e) in
      fill_block p rest qs later s (tail-eq_of_cons-eq e) c a
        (subst (λ x. s.input ≡ blocks zlib block_size s.reader.prev_block_crc ((x ∷ qs) ∷ later))
          same i)
        (subst (λ x. AreBlocks block_size ((x ∷ qs) ∷ later)) same b)
  fill_from p rest (q ∷ qs) later s e c k a i b =
      let same : q ≡ p = sym (head-eq_of_cons-eq e) in
      fill_content p rest qs later s (tail-eq_of_cons-eq e)
        (subst (λ x. s.reader.content ≡ encode (x ∷ qs)) same c)
        (subst (λ x. ArePieces (x ∷ qs)) same k) a i b

  pub fill-Front :
      (p : Piece) (rest : List Piece) (s : Reading)
      → At zlib block_size (p ∷ rest) s
      → Filled p rest s
  fill-Front p rest s a =
      fill_from p rest a.here a.later s a.rest_eq a.content_eq a.pieces_ok a a.input_eq a.blocks_ok
