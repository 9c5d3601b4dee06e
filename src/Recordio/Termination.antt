-- ===== src/Recordio/Termination.antt =====
-- ReadRecord of io/logio/recordio.cc ends on any input.
use whisperlib.Prelude.{
  ℕ, zero, suc, ◌+◌, ◌≤◌, ◌<◌, ltb, leb, ◌==◌, ==_iff, ◌≡◌, refl, ap, ◌⊎◌, inl, inr, Bool, true,
  false, not, ◌&&◌, ◌||◌, Bool-cases, if◌then◌else◌, Option, none, some, List, [], ◌∷◌, length,
  length-append, length-take, length-drop, take, drop, arith,
}
use whisperlib.Prelude.Outcome.{
  Ensures, Ensures-bind, Ensures-check, Ensures-branch, Ensures-on_value, Ensures-pure,
  Ensures-mono,
}
use whisperlib.NumStreaming.{
  ByteOrder, big_endian, little_endian, write_int32, read_number, read_byte, read_uint24,
  read_int32,
}
use whisperlib.Recordio.Writer.{Zlib, block_trailer_end, size_minus, is_empty}
use whisperlib.Recordio.Reader.{
  ReadResult, read_ok, read_no_data, size_of_int32, is_ok, is_broken, RecordReader, Reading,
  take_block, read_next_block, skip_piece, fill, skip_loop, take_piece, read_piece, read_loop,
  read_record, end_record, skipped_enough,
}

some_bytes : (l : List ℕ) → is_empty l ≡ false → 1 ≤ length l
some_bytes [] h = cc
some_bytes (b ∷ bs) h = omega arith

no_bytes : (l : List ℕ) → is_empty l ≡ true → length l ≡ 0
no_bytes [] h = refl
no_bytes (b ∷ bs) h = cc

-- The bytes that a call has not used up.
abbrev pub unread : Reading → ℕ
unread s = length s.reader.content + length s.input

read_number-shrinks :
    (order : ByteOrder) (width : ℕ) (stream : List ℕ)
    → Ensures (λ r. length r.1 + width ≤ length stream) (read_number order width stream)
unfolding read_number
read_number-shrinks order width stream =
    Ensures-check (λ r. length r.1 + width ≤ length stream) (width == length (take width stream)) _
      λ e.
        Ensures-pure (λ r. length r.1 + width ≤ length stream) _
          (let all = (==_iff width (length (take width stream))).0 e in
            omega (arith, all, length-take width stream, length-drop width stream))

module _ (zlib : Zlib) where
  -- Taking a block puts no more bytes into the content than the body of the block has.
  take_block-shrinks :
      (r : RecordReader) (body : List ℕ) (content_size prev_crc crc : ℕ)
      → length (take_block zlib r body content_size prev_crc crc).1.content
        ≤ length r.content + length body
  unfolding take_block
  take_block-shrinks r body content_size prev_crc crc =
      let size = size_of_int32 content_size in
      let bad =
        not (
          zlib.crc32 (write_int32 big_endian prev_crc (write_int32 big_endian content_size body))
          == crc)
        || ltb (size_minus r.block_size block_trailer_end) size in
      elim (Bool-cases bad) [
        | inl e ↦ rw (e) (omega arith)
        | inr e ↦
            rw (e) (omega (arith, length-append r.content (take size body), length-take size body))
      ]

  BlockRead : RecordReader → List ℕ → ReadResult × RecordReader × List ℕ → Type 0
  BlockRead r input t =
      (t.0 ≡ read_no_data)
      ⊎ (length t.1.content + length t.2 + 12 ≤ length r.content + length input)

  next_block-shrinks :
      (r : RecordReader) (input : List ℕ)
      → Ensures (BlockRead r input) (read_next_block zlib r input)
  unfolding read_next_block read_int32 BlockRead
  next_block-shrinks r input =
      let body = size_minus r.block_size block_trailer_end in
      let part = drop body input in
      let Q = BlockRead r input in
      Ensures-branch Q (ltb (length input) r.block_size) _ _ (λ e. Ensures-pure Q _ (inl refl))
        (λ e.
          Ensures-bind (λ t. length t.1 + 4 ≤ length part) Q (read_number big_endian 4 part) _
            (read_number-shrinks big_endian 4 part)
            λ a ha.
              Ensures-bind (λ t. length t.1 + 4 ≤ length a.1) Q (read_number big_endian 4 a.1) _
                (read_number-shrinks big_endian 4 a.1)
                λ b hb.
                  Ensures-bind (λ t. length t.1 + 4 ≤ length b.1) Q (read_number big_endian 4 b.1) _
                    (read_number-shrinks big_endian 4 b.1)
                    λ c hc. Ensures-pure Q _ (
                      inr (
                        omega (
                          arith,
                          ha,
                          hb,
                          hc,
                          take_block-shrinks r (take body input) a.0 b.0 c.0,
                          length-take body input,
                          length-drop body input,
                        ))))

  abbrev is_over : Option ReadResult → Bool
  is_over none = false
  is_over (some r) = true

  if-content :
      (b : Bool) (r : RecordReader)
      → length (if b then record r { skip_record = true } else r).content ≡ length r.content
  if-content true r = refl
  if-content false r = refl

  -- A step that does not end the call: it adds no bytes, and if it leaves no content it uses some up.
  Filled : Reading → Reading × Option ReadResult → Type 0
  Filled s t =
      (is_over t.1 ≡ true)
      ⊎ ((unread t.0 ≤ unread s) × ((1 ≤ length t.0.reader.content) ⊎ (unread t.0 + 12 ≤ unread s)))

  block_step :
      (s : Reading) (t : ReadResult × RecordReader × List ℕ)
      → BlockRead s.reader s.input t
      → Filled s (
        record s {
          reader =
              if is_broken t.0 && not (is_empty t.1.record_content)
              then record (t.1) { skip_record = true }
              else t.1;
          input = t.2;
        },
        if is_ok t.0 || (is_broken t.0 && not (is_empty t.1.record_content))
            then none
            else some (t.0),
      )
  unfolding Filled BlockRead
  block_step s (ret, r, input) (inl e) = inl (rw (e) refl)
  block_step s (ret, r, input) (inr h) =
      let same : length
            (if is_broken ret && not (is_empty r.record_content)
              then record r { skip_record = true }
              else r).content
          ≡ length r.content =
        if-content (is_broken ret && not (is_empty r.record_content)) r in
      inr (omega (arith, h, same), inr (omega (arith, h, same)))

  fill-shrinks : (s : Reading) → Ensures (Filled s) (fill zlib s)
  unfolding fill Filled BlockRead
  fill-shrinks s =
      Ensures-branch (Filled s) (is_empty s.reader.content) _ _
        (λ e.
          Ensures-bind (BlockRead s.reader s.input) (Filled s)
            (read_next_block zlib s.reader s.input) _ (next_block-shrinks s.reader s.input)
            (λ t h. Ensures-pure (Filled s) _ (block_step s t h)))
        (λ e. Ensures-pure (Filled s) _ (inr (omega arith, inl (some_bytes s.reader.content e))))

  -- Skipping and taking pieces leave the input, and use up content.
  abbrev SameInput : Reading → Reading → Type 0
  SameInput s t = (t.input ≡ s.input) × (length t.reader.content ≤ length s.reader.content)

  skip_piece-shrinks :
      (r : RecordReader)
      → Ensures (λ t. length t.content + 4 ≤ length r.content) (skip_piece zlib r)
  unfolding skip_piece read_byte read_uint24
  skip_piece-shrinks r =
      let Q = λ (t : RecordReader). length t.content + 4 ≤ length r.content in
      Ensures-check Q (leb 4 (length r.content)) _ λ e.
        Ensures-bind (λ t. length t.1 + 1 ≤ length r.content) Q
          (read_number little_endian 1 r.content) _ (read_number-shrinks little_endian 1 r.content)
          λ a ha.
            Ensures-bind (λ t. length t.1 + 3 ≤ length a.1) Q (read_number big_endian 3 a.1) _
              (read_number-shrinks big_endian 3 a.1)
              λ b hb. Ensures-pure Q _ (omega (arith, ha, hb, length-drop b.0 b.1))

  skip_loop-shrinks :
      (fuel : ℕ) (s : Reading) (max : ℕ)
      → length s.reader.content < fuel
      → Ensures (λ t. SameInput s t.0) (skip_loop zlib fuel s max)
  unfolding skip_loop
  skip_loop-shrinks zero s max f = absurd (omega (arith, f))
  skip_loop-shrinks (suc fuel) s max f =
      let Q = λ (t : Reading × Bool). SameInput s t.0 in
      Ensures-branch Q (s.reader.skip_record && not (is_empty s.reader.content)) _ _
        (λ e.
          Ensures-bind (λ t. length t.content + 4 ≤ length s.reader.content) Q
            (skip_piece zlib s.reader) _ (skip_piece-shrinks s.reader)
            λ r h.
              let s1 : Reading = record s { reader = r; num_skipped = s.num_skipped + 1 } in
              Ensures-branch Q (skipped_enough zlib s1 max) _ _
                (λ k. Ensures-pure Q (s1, true) (refl, omega (arith, h)))
                (λ k.
                  Ensures-mono (λ t. SameInput s1 t.0) Q (skip_loop zlib fuel s1 max)
                    (skip_loop-shrinks fuel s1 max (omega (arith, h, f)))
                    (λ t g. (g.0, omega (arith, h, g.1)))))
        (λ e. Ensures-pure Q (s, false) (refl, omega arith))

  take_piece-shrinks :
      (s : Reading) (flags len : ℕ) (content : List ℕ) (max : ℕ)
      → (length (take_piece zlib s flags len content max).0.reader.content ≤ length content)
        × ((take_piece zlib s flags len content max).0.input ≡ s.input)
  unfolding take_piece end_record
  take_piece-shrinks s flags len content max = ground (arith, length-drop len content)

  read_piece-shrinks :
      (s : Reading) (max : ℕ) → Ensures (λ t. unread t.0 + 4 ≤ unread s) (read_piece zlib s max)
  unfolding read_piece read_byte read_uint24
  read_piece-shrinks s max =
      let Q = λ (t : Reading × Option ReadResult). unread t.0 + 4 ≤ unread s in
      Ensures-check Q (leb 4 (length s.reader.content)) _ λ e.
        Ensures-bind (λ t. length t.1 + 1 ≤ length s.reader.content) Q
          (read_number little_endian 1 s.reader.content) _
          (read_number-shrinks little_endian 1 s.reader.content)
          λ a ha.
            Ensures-bind (λ t. length t.1 + 3 ≤ length a.1) Q (read_number big_endian 3 a.1) _
              (read_number-shrinks big_endian 3 a.1)
              λ b hb.
                let t = take_piece-shrinks s a.0 b.0 b.1 max in
                let input = ap (λ l. length l) t.1 in
                Ensures-pure Q (take_piece zlib s a.0 b.0 b.1 max)
                  (omega (arith, ha, hb, t.0, input))

  no_more :
      (s : Reading) (a : Reading × Option ReadResult) (b : Reading × Bool)
      → Filled s a
      → SameInput a.0 b.0
      → a.1 ≡ none
      → unread b.0 ≤ unread s
  unfolding Filled
  no_more s a b (inl e) hb n = absurd (let over = ap is_over n in cc)
  no_more s a b (inr h) hb n = omega (arith, h.0, ap (λ l. length l) hb.0, hb.1)

  -- Where no content is left, some bytes were used up.
  less :
      (s : Reading) (a : Reading × Option ReadResult) (b : Reading × Bool)
      → Filled s a
      → SameInput a.0 b.0
      → a.1 ≡ none
      → is_empty b.0.reader.content ≡ true
      → unread b.0 < unread s
  unfolding Filled
  less s a b (inl e) hb n k = absurd (let over = ap is_over n in cc)
  less s a b (inr h) hb n k =
      let input = ap (λ l. length l) hb.0 in
      let gone = no_bytes b.0.reader.content k in
      elim h.1 [
        | inl c ↦ omega (arith, h.0, c, input, gone)
        | inr c ↦ omega (arith, h.0, c, input, hb.1)
      ]

  read_loop-ends :
      (fuel : ℕ) (s : Reading) (max : ℕ)
      → unread s < fuel
      → Ensures (λ t. Unit {0}) (read_loop zlib fuel s max)
  unfolding read_loop
  read_loop-ends zero s max f = absurd (omega (arith, f))
  read_loop-ends (suc fuel) s max f =
      let Q = λ (t : ReadResult × Reading). Unit {0} in
      Ensures-bind (Filled s) Q (fill zlib s) _ (fill-shrinks s) λ a ha.
        Ensures-on_value Q (a.1) _ _
          (λ none_yet.
            Ensures-bind (λ t. SameInput a.0 t.0) Q
              (skip_loop zlib (suc (length a.0.reader.content)) a.0 max) _
              (skip_loop-shrinks (suc (length a.0.reader.content)) a.0 max (omega arith))
              λ b hb.
                Ensures-branch Q (b.1) _ _ (λ e. Ensures-pure Q (read_ok, b.0) tt)
                  (λ e.
                    Ensures-branch Q (is_empty b.0.reader.content) _ _
                      (λ k.
                        read_loop-ends fuel b.0 max (omega (arith, f, less s a b ha hb none_yet k)))
                      (λ k.
                        Ensures-bind (λ t. unread t.0 + 4 ≤ unread b.0) Q (read_piece zlib b.0 max)
                          _ (read_piece-shrinks b.0 max)
                          λ c hc.
                            Ensures-on_value Q (c.1) _ _
                              (λ n.
                                read_loop-ends fuel c.0 max
                                  (omega (arith, f, hc, no_more s a b ha hb none_yet)))
                              (λ r n. Ensures-pure Q (r, c.0) tt))))
          (λ r e. Ensures-pure Q (r, a.0) tt)

  -- Whatever the reader has and the input is, ReadRecord ends: in the model, it does not run out of fuel. (It
  -- may end in a failed CHECK, where the content is cut off inside a header.)
  pub read_record-ends :
      (s : Reading) (max_num_skip : ℕ) → Ensures (λ t. Unit {0}) (read_record zlib s max_num_skip)
  unfolding read_record
  read_record-ends s max = read_loop-ends (suc (unread s)) s max (omega arith)
