-- ===== src/Recordio/Whole.antt =====
-- Whole records through ReadRecord of io/logio/recordio.cc.
use whisperlib.Prelude.{
  ℕ, zero, suc, ◌+◌, ◌^◌, ◌≤◌, ◌<◌, ◌≡◌, refl, ap, ◌∙◌, inl, inr, Bool, true, false, if◌then◌else◌,
  Option, some, List, [], ◌++◌, length, length-append, arith,
}
use mathlib.Core.List.{append_assoc}
use whisperlib.Prelude.Outcome.{done}
use whisperlib.Recordio.Writer.{Zlib, has_cont, first_flag}
use whisperlib.Recordio.Pieces.{Piece, Pieces, last, more}
use whisperlib.Recordio.Reader.{read_ok, Reading, read_loop, continues, end_record}
use whisperlib.Recordio.Records.{At}
use whisperlib.Recordio.Steps.{round_lem, IsNext}

-- A record begins where there is none, and goes on where there is a part of it.
abbrev NextFor : Bool → Reading → Type 0
NextFor true s = s.reader.record_content ≡ []
NextFor false s = 1 ≤ length s.reader.record_content

module _ (zlib : Zlib) (block_size : ℕ) where
  -- A record is read: it is put at the end of `out`.
  abbrev pub Read : ℕ → ℕ → List ℕ → List Piece → List ℕ → Reading → Type 0
  Read fuel max bytes rest o s =
      (s' : Reading) × ((At zlib block_size rest s')
        × ((s'.out ≡ some (o ++ (s.reader.record_content ++ bytes)))
            × ((s'.reader.record_content ≡ [])
                × ((s'.num_skipped ≡ s.num_skipped)
                    × (read_loop zlib fuel s max ≡ done (read_ok, s'))))))

  IsNext-last :
      (first : Bool) (bytes : List ℕ) (s : Reading)
      → NextFor first s
      → IsNext zlib block_size (record { flags = first_flag first; bytes = bytes }) s
  IsNext-last true bytes s n = inl (refl, n)
  IsNext-last false bytes s n = inr (refl, n)

  IsNext-more :
      (first : Bool) (bytes : List ℕ) (s : Reading)
      → NextFor first s
      → IsNext zlib block_size (record { flags = has_cont + first_flag first; bytes = bytes }) s
  IsNext-more true bytes s n = inl (refl, n)
  IsNext-more false bytes s n = inr (refl, n)

  end_last :
      (first : Bool) (s : Reading) (o : List ℕ)
      → s.out ≡ some o
      → end_record zlib s (first_flag first) ≡ (
        record s {
          reader = record (s.reader) { record_content = [] };
          out = some (o ++ s.reader.record_content);
        },
        read_ok,
      )
  unfolding end_record
  end_last true s o e = rw (e, end_record)
  end_last false s o e = rw (e, end_record)

  ends : (first : Bool) → continues (first_flag first) ≡ false
  ends true = refl
  ends false = refl

  goes_on : (first : Bool) → continues (has_cont + first_flag first) ≡ true
  goes_on true = refl
  goes_on false = refl

  still_At :
      (rest : List Piece) (s : Reading) (o : Option (List ℕ))
      → At zlib block_size rest s
      → At zlib block_size rest
          (record s { reader = record (s.reader) { record_content = [] }; out = o })
  still_At rest s o a = record {
    here = a.here;
    later = a.later;
    rest_eq = a.rest_eq;
    content_eq = a.content_eq;
    input_eq = a.input_eq;
    size_eq = a.size_eq;
    skip_eq = a.skip_eq;
    crc_small = a.crc_small;
    pieces_ok = a.pieces_ok;
    blocks_ok = a.blocks_ok;
  }

  module _ (crc_bound : (bs : List ℕ) → zlib.crc32 bs < 2 ^ 32) (small : block_size < 2 ^ 24) where
    pub Read-Pieces :
        (fuel max : ℕ) (first : Bool) (bytes : List ℕ) (ps rest : List Piece) (s : Reading)
        (o : List ℕ)
        → Pieces first bytes ps
        → At zlib block_size (ps ++ rest) s
        → s.out ≡ some o
        → NextFor first s
        → length ps ≤ fuel
        → Read fuel max bytes rest o s
    Read-Pieces zero max first bytes ps rest s o (last _ _) a out n h = absurd (omega (arith, h))
    Read-Pieces zero max first bytes ps rest s o (more _ _ _ _ _ _) a out n h =
        absurd (omega (arith, h))
    Read-Pieces (suc fuel) max first bytes ps rest s o (last _ _) a out n h =
        let p : Piece = record { flags = first_flag first; bytes = bytes } in
        let t =
          round_lem zlib block_size crc_bound small fuel max p rest s o a out
            (IsNext-last first bytes s n) in
        let s1 = t.0 in
        let rc = t.1.1.0 in
        let ended = end_last first s1 o (t.1.1.1.0 ∙ out) in
        (
          record s1 {
            reader = record (s1.reader) { record_content = [] };
            out = some (o ++ s1.reader.record_content);
          },
          (
            still_At rest s1 (some (o ++ s1.reader.record_content)) t.1.0,
            (
              ap (λ l. some (o ++ l)) rc,
              (
                refl,
                (
                  t.1.1.1.1.0,
                  t.1.1.1.1.1
                      ∙ ap
                          (λ b.
                            if b
                            then read_loop zlib fuel s1 max
                            else done (
                              (end_record zlib s1 (first_flag first)).1,
                              (end_record zlib s1 (first_flag first)).0,
                            ))
                          (ends first)
                      ∙ ap (λ r. done (r.1, r.0)) ended,
                ),
              ),
            ),
          ),
        )
    Read-Pieces (suc fuel) max first bytes ps rest s o (more _ chunk left qs c k) a out n h =
        let p : Piece = record { flags = has_cont + first_flag first; bytes = chunk } in
        let t =
          round_lem zlib block_size crc_bound small fuel max p (qs ++ rest) s o a out
            (IsNext-more first chunk s n) in
        let s1 = t.0 in
        let rc = t.1.1.0 in
        let flags = has_cont + first_flag first in
        let part : 1 ≤ length s1.reader.record_content =
          omega (arith, c, ap (λ l. length l) rc, length-append s.reader.record_content chunk) in
        let r =
          Read-Pieces fuel max false left qs rest s1 o k t.1.0 (t.1.1.1.0 ∙ out) part
            (omega (arith, h)) in
        (
          r.0,
          (
            r.1.0,
            (
              r.1.1.0
                  ∙ ap (λ l. some (o ++ (l ++ left))) rc
                  ∙ ap (λ l. some (o ++ l)) (append_assoc s.reader.record_content chunk left),
              (
                r.1.1.1.0,
                (
                  r.1.1.1.1.0 ∙ t.1.1.1.1.0,
                  t.1.1.1.1.1
                      ∙ ap
                          (λ b.
                            if b
                            then read_loop zlib fuel s1 max
                            else done ((end_record zlib s1 flags).1, (end_record zlib s1 flags).0))
                          (goes_on first)
                      ∙ r.1.1.1.1.1,
                ),
              ),
            ),
          ),
        )
