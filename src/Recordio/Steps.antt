-- ===== src/Recordio/Steps.antt =====
-- One round of ReadRecord of io/logio/recordio.cc: a piece of a record is taken.
use whisperlib.Prelude.{
  ℕ, suc, ◌^◌, ◌≤◌, ◌<◌, leb, ◌≡◌, refl, ap, ◌∙◌, Bool, true, false, not, ◌&&◌, if◌then◌else◌,
  Option, none, some, List, [], ◌∷◌, ◌++◌, length, take-append, drop-append, arith, ◌⊎◌, inl, inr,
}
use mathlib.Core.List.{append_assoc}
use whisperlib.Prelude.Outcome.{Outcome, done, branch, on_value}
use whisperlib.NumStreaming.{
  big_endian, little_endian, write_byte, write_uint24, write_number, read_byte, read_uint24,
}
use whisperlib.NumStreaming.RoundTrip.{read_number-write_number}
use whisperlib.Recordio.Writer.{Zlib, is_empty}
use whisperlib.Recordio.Pieces.{Piece, encode_piece, encode}
use whisperlib.Recordio.Reader.{
  ReadResult, Reading, fill, skip_loop, take_piece, read_piece, read_loop, continues, starts,
  end_record, has_out,
}
use whisperlib.Recordio.Records.{At, Front, fill-Front, is_empty_no, length-encode_front}

-- The header of a piece, and what follows it.
piece_layout :
    (p : Piece) (tail : List ℕ)
    → encode_piece p ++ tail
      ≡ write_number little_endian 1 p.flags []
        ++ (write_number big_endian 3 (length p.bytes) [] ++ (p.bytes ++ tail))
unfolding encode_piece write_uint24 write_byte write_number
piece_layout p tail =
    append_assoc
      (write_number little_endian 1 p.flags [] ++ write_number big_endian 3 (length p.bytes) [])
      p.bytes tail
    ∙ append_assoc (write_number little_endian 1 p.flags [])
        (write_number big_endian 3 (length p.bytes) []) (p.bytes ++ tail)

module _ (zlib : Zlib) (block_size : ℕ) where
  abbrev taken : Reading → Piece → List Piece → ℕ → Reading × Option ReadResult
  taken s p ps max = take_piece zlib s p.flags (length p.bytes) (p.bytes ++ encode ps) max

  read_piece-Front :
      (p : Piece) (rest : List Piece) (s : Reading) (max : ℕ) (f : Front zlib block_size p rest s)
      → read_piece zlib s max ≡ done (taken s p f.here max)
  unfolding read_piece read_byte read_uint24
  read_piece-Front p rest s max f =
      let tail = encode f.here in
      let rest1 = write_number big_endian 3 (length p.bytes) [] ++ (p.bytes ++ tail) in
      let long = length-encode_front p f.here in
      let whole : s.reader.content ≡ write_number little_endian 1 p.flags [] ++ rest1 =
        f.content_eq ∙ piece_layout p tail in
      let enough : leb 4 (length s.reader.content) ≡ true =
        ap (λ l. leb 4 (length l)) f.content_eq ∙ ground (arith, long) in
      let r1 =
        (read_number-write_number little_endian 1 p.flags rest1 (omega (arith, f.piece_ok.0))).0 in
      let r2 =
        (read_number-write_number big_endian 3 (length p.bytes) (p.bytes ++ tail)
          (omega (arith, f.piece_ok.1))).0 in
      rw (enough, whole, r1, r2)

  -- What a round does with the piece that it took.
  abbrev pub after_piece : ℕ → ℕ → Reading × Option ReadResult → Outcome (ReadResult × Reading)
  after_piece fuel max t = on_value t.1 (read_loop zlib fuel t.0 max) λ r. done (r, t.0)

  Front-round :
      (fuel max : ℕ) (p : Piece) (rest : List Piece) (s s1 : Reading)
      → fill zlib s ≡ done (s1, none)
      → (f : Front zlib block_size p rest s1)
      → read_loop zlib (suc fuel) s max ≡ after_piece fuel max (taken s1 p f.here max)
  unfolding read_loop skip_loop branch on_value
  Front-round fuel max p rest s s1 e f =
      let full : is_empty s1.reader.content ≡ false =
        ap is_empty f.content_eq
        ∙ is_empty_no (encode_piece p ++ encode f.here)
            (omega (arith, length-encode_front p f.here)) in
      let quiet : (s1.reader.skip_record && not (is_empty s1.reader.content)) ≡ false =
        ap (λ b. b && not (is_empty s1.reader.content)) f.skip_eq in
      rw (e, quiet, full, read_piece-Front p rest s1 max f)

  -- A round that takes a piece: the reader is at the piece, and `out` is not NULL. `ended` is the record, if
  -- the piece is the last one.
  abbrev pub Took : ℕ → ℕ → Piece → List Piece → Reading → Type 0
  Took fuel max p rest s =
      (s1 : Reading) × ((At zlib block_size rest s1)
        × ((s1.reader.record_content ≡ s.reader.record_content ++ p.bytes)
            × ((s1.out ≡ s.out)
                × ((s1.num_skipped ≡ s.num_skipped)
                    × (read_loop zlib (suc fuel) s max ≡ (
                        if continues p.flags
                        then read_loop zlib fuel s1 max
                        else done
                            ((end_record zlib s1 p.flags).1, (end_record zlib s1 p.flags).0)))))))

  abbrev kept : Reading → Piece → List Piece → Reading
  kept s p ps = record s {
    reader = record (s.reader) {
      content = encode ps;
      record_content = s.reader.record_content ++ p.bytes;
    };
  }

  taken_lem :
      (s : Reading) (p : Piece) (ps : List Piece) (max : ℕ)
      → (starts p.flags && not (is_empty s.reader.record_content)) ≡ false
      → (has_out zlib s.out && (is_empty s.reader.record_content && not (starts p.flags))) ≡ false
      → has_out zlib s.out ≡ true
      → taken s p ps max ≡ (
          if continues p.flags then (kept s p ps, none) else (
            (end_record zlib (kept s p ps) p.flags).0,
            some (end_record zlib (kept s p ps) p.flags).1,
          ))
  unfolding take_piece
  taken_lem s p ps max q1 q2 o =
      let t = take-append (length p.bytes) p.bytes (encode ps) refl in
      let d = drop-append (length p.bytes) p.bytes (encode ps) refl in rw (q1, q2, o, t, d)

  after_test :
      (fuel max : ℕ) (b : Bool) (s : Reading) (ended : Reading × ReadResult)
      → after_piece fuel max (if b then (s, none) else (ended.0, some ended.1))
        ≡ (if b then read_loop zlib fuel s max else done (ended.1, ended.0))
  unfolding on_value
  after_test fuel max true s ended = refl
  after_test fuel max false s ended = refl

  -- A piece that begins a record is expected where there is no record, and one that continues a record
  -- where there is one.
  abbrev pub IsNext : Piece → Reading → Type 0
  IsNext p s =
      ((starts p.flags ≡ true) × (s.reader.record_content ≡ []))
      ⊎ ((starts p.flags ≡ false) × (1 ≤ length s.reader.record_content))

  module _ (crc_bound : (bs : List ℕ) → zlib.crc32 bs < 2 ^ 32) (small : block_size < 2 ^ 24) where
    pub round_lem :
        (fuel max : ℕ) (p : Piece) (rest : List Piece) (s : Reading) (o : List ℕ)
        → At zlib block_size (p ∷ rest) s
        → s.out ≡ some o
        → IsNext p s
        → Took fuel max p rest s
    round_lem fuel max p rest s o a out next =
        let filled = fill-Front zlib crc_bound block_size small p rest s a in
        let s1 = filled.0 in
        let f = filled.1.1.0 in
        let same = filled.1.1.1 in
        let rc : s1.reader.record_content ≡ s.reader.record_content = same.0 in
        let has : has_out zlib s1.out ≡ true = ap (has_out zlib) (same.1.0 ∙ out) in
        let q1 : (starts p.flags && not (is_empty s1.reader.record_content)) ≡ false = elim next [
          | inl n ↦ rw (n.0, rc, n.1) refl
          | inr n ↦ rw (n.0) refl
        ] in
        let q2 : (has_out zlib s1.out
              && (is_empty s1.reader.record_content && not (starts p.flags)))
            ≡ false =
          elim next [
            | inl n ↦ rw (has, n.0, rc, n.1) refl
            | inr n ↦ rw (has, n.0, rc, is_empty_no s.reader.record_content n.1) refl
          ] in
        let t = taken_lem s1 p f.here max q1 q2 has in
        (
          kept s1 p f.here,
          (
            record {
              here = f.here;
              later = f.later;
              rest_eq = f.rest_eq;
              content_eq = refl;
              input_eq = f.input_eq;
              size_eq = f.size_eq;
              skip_eq = f.skip_eq;
              crc_small = f.crc_small;
              pieces_ok = f.pieces_ok;
              blocks_ok = f.blocks_ok;
            },
            (
              ap (λ l. l ++ p.bytes) rc,
              (
                same.1.0,
                (
                  same.1.1,
                  Front-round fuel max p rest s s1 filled.1.0 f
                      ∙ ap (after_piece fuel max) t
                      ∙ after_test fuel max (continues p.flags) (kept s1 p f.here)
                          (end_record zlib (kept s1 p f.here) p.flags),
                ),
              ),
            ),
          ),
        )
