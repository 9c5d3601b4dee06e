-- ===== src/Recordio/Sequence.antt =====
-- Reading a sequence of records with ReadRecord of io/logio/recordio.cc, up to the end of the data.
use whisperlib.Prelude.{
  ℕ, zero, suc, ◌+◌, ◌^◌, ◌≤◌, ◌<◌, ltb, ◌≡◌, refl, ap, ◌∙◌, true, Option, none, some, List, [],
  ◌∷◌, ◌++◌, length, length-append, arith, replicate,
}
use mathlib.Core.List.{nil≢cons}
use whisperlib.Prelude.Outcome.{Outcome, done, starved, ◌>>=◌, branch, on_value}
use whisperlib.NumStreaming.{big_endian, write_int32, write_number}
use whisperlib.NumStreaming.RoundTrip.{length-write_number}
use whisperlib.Recordio.Writer.{
  Zlib, is_empty, close_block, block_body, size_minus, block_trailer_end,
}
use whisperlib.Recordio.Pieces.{
  Piece, Records, none_left, one_more, encode_piece, encode, blocks, crc_of, join, AreBlocks,
  length-encode_piece,
}
use whisperlib.Recordio.Reader.{
  ReadResult, read_ok, read_no_data, RecordReader, Reading, fill, read_next_block, read_loop,
  read_record, is_ok,
}
use whisperlib.Recordio.Records.{At}
use whisperlib.Recordio.Whole.{Read-Pieces}

abbrev out_of : Option (List ℕ) → List ℕ
out_of none = []
out_of (some out) = out

-- ReadRecord is called until it gives no record: the records, and the last result.
unfoldable pub read_all :
    Zlib → (fuel : ℕ) → RecordReader → (input : List ℕ) → Outcome (List (List ℕ) × ReadResult)
read_all zlib zero r input = starved
read_all zlib (suc fuel) r input = do
  (result, s) ←
      read_record zlib (record { reader = r; input = input; out = some []; num_skipped = 0 }) 0
  branch (is_ok result)
      (do
        (records, last) ← read_all zlib fuel s.reader s.input
        done (out_of s.out ∷ records, last))
      (done ([], result))

length-encode : (ps : List Piece) → length ps ≤ length (encode ps)
unfolding encode
length-encode [] = omega arith
length-encode (p ∷ ps) =
    omega
      (arith, length-append (encode_piece p) (encode ps), length-encode_piece p, length-encode ps)

module _ (zlib : Zlib) (block_size : ℕ) where
  length-close_block :
      (prev_crc : ℕ) (content : List ℕ)
      → length content ≤ length (close_block zlib block_size prev_crc content)
  unfolding close_block block_body write_int32
  length-close_block prev_crc content =
      let padded =
        content
        ++ replicate (size_minus (size_minus block_size (length content)) block_trailer_end) 0 in
      let one = write_number big_endian 4 (length content) padded in
      let two = write_number big_endian 4 prev_crc one in
      omega (
        arith,
        length-append content
            (replicate (size_minus (size_minus block_size (length content)) block_trailer_end) 0),
        length-write_number big_endian 4 (length content) padded,
        length-write_number big_endian 4 prev_crc one,
        length-write_number big_endian 4 (zlib.crc32 two) two,
      )

  length-blocks :
      (prev_crc : ℕ) (bs : List (List Piece))
      → length (join bs) ≤ length (blocks zlib block_size prev_crc bs)
  unfolding blocks
  length-blocks prev_crc [] = omega arith
  length-blocks prev_crc (b ∷ bs) =
      let crc = crc_of zlib block_size prev_crc b in
      omega (
        arith,
        length-append b (join bs),
        length-encode b,
        length-close_block prev_crc (encode b),
        length-blocks crc bs,
        length-append (close_block zlib block_size prev_crc (encode b))
            (blocks zlib block_size crc bs),
      )

  -- A round for each piece is within the fuel of ReadRecord.
  enough_fuel :
      (ps : List Piece) (s : Reading)
      → At zlib block_size ps s
      → length ps ≤ length s.reader.content + length s.input
  enough_fuel ps s a = omega (
    arith,
    ap (λ l. length l) a.rest_eq,
    length-append a.here (join a.later),
    length-encode a.here,
    ap (λ l. length l) a.content_eq,
    ap (λ l. length l) a.input_eq,
    length-blocks s.reader.prev_block_crc a.later,
  )

  nothing_left :
      (here : List Piece) (later : List (List Piece))
      → [] ≡ here ++ join later
      → AreBlocks block_size later
      → (here ≡ []) × (later ≡ [])
  nothing_left [] [] e b = (refl, refl)
  nothing_left [] ([] ∷ later) e b = absurd (omega (arith, b.0.0))
  nothing_left [] ((p ∷ ps) ∷ later) e b = absurd (nil≢cons e)
  nothing_left (p ∷ ps) later e b = absurd (nil≢cons e)

  at_end :
      (s : Reading) (max : ℕ)
      → 1 ≤ block_size
      → At zlib block_size [] s
      → read_record zlib s max ≡ done (read_no_data, s)
  unfolding read_record read_loop fill read_next_block branch on_value encode blocks
  at_end s max h a =
      let over = nothing_left a.here a.later a.rest_eq a.blocks_ok in
      let content : s.reader.content ≡ [] = a.content_eq ∙ ap encode over.0 in
      let empty : is_empty s.reader.content ≡ true = ap is_empty content in
      let input : s.input ≡ [] =
        a.input_eq ∙ ap (blocks zlib block_size s.reader.prev_block_crc) over.1 in
      let short : ltb (length s.input) s.reader.block_size ≡ true =
        ap (λ l. ltb (length l) s.reader.block_size) input
        ∙ (let same = a.size_eq in ground (arith, h, same)) in
      rw (empty, short)

  -- A call of ReadRecord with an empty `out`.
  abbrev pub call : RecordReader → List ℕ → Reading
  call r input = record { reader = r; input = input; out = some []; num_skipped = 0 }

  next_call :
      (ps : List Piece) (s : Reading)
      → At zlib block_size ps s
      → At zlib block_size ps (call s.reader s.input)
  next_call ps s a = record {
    here = a.here;
    later = a.later;
    rest_eq = a.rest_eq;
    content_eq = a.content_eq;
    input_eq = a.input_eq;
    size_eq = a.size_eq;
    skip_eq = a.skip_eq;
    crc_small = a.crc_small;
    pieces_ok = a.pieces_ok;
    blocks_ok = a.blocks_ok;
  }

  loop_of :
      (s s' : Reading)
      → read_loop zlib (suc (length s.reader.content + length s.input)) s 0 ≡ done (read_ok, s')
      → read_record zlib s 0 ≡ done (read_ok, s')
  unfolding read_record
  loop_of s s' e = e

  module _ (crc_bound : (bs : List ℕ) → zlib.crc32 bs < 2 ^ 32) (small : block_size < 2 ^ 24)
      (some_size : 1 ≤ block_size) where
    pub read_all-Records :
        (fuel : ℕ) (rs : List (List ℕ)) (ps : List Piece) (r : RecordReader) (input : List ℕ)
        → Records rs ps
        → At zlib block_size ps (call r input)
        → r.record_content ≡ []
        → length rs < fuel
        → read_all zlib fuel r input ≡ done (rs, read_no_data)
    unfolding read_all branch
    read_all-Records zero rs ps r input (none_left) a e h = absurd (omega (arith, h))
    read_all-Records zero rs ps r input (one_more _ _ _ _ _ _) a e h = absurd (omega (arith, h))
    read_all-Records (suc fuel) rs ps r input none_left a e h =
        rw (at_end (call r input) 0 some_size a)
    read_all-Records (suc fuel) rs ps r input (one_more bytes qs one more k l) a e h =
        let fuel_left : length one ≤ suc (length r.content + length input) =
          omega (arith, enough_fuel (one ++ more) (call r input) a, length-append one more) in
        let t =
          Read-Pieces zlib block_size crc_bound small (suc (length r.content + length input)) 0 true
            bytes one more (call r input) [] k a refl e fuel_left in
        let s = t.0 in
        let first : read_record zlib (call r input) 0 ≡ done (read_ok, s) =
          loop_of (call r input) s t.1.1.1.1.1 in
        let out : out_of s.out ≡ bytes = ap out_of t.1.1.0 ∙ ap (λ l. l ++ bytes) e in
        let rest =
          read_all-Records fuel qs more s.reader s.input l (next_call more s t.1.0) t.1.1.1.0
            (omega (arith, h)) in
        rw (first, rest, out)
