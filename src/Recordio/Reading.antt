-- ===== src/Recordio/Reading.antt =====
-- What the reader of io/logio/recordio.cc makes of a block that the writer closed.
use whisperlib.Prelude.{
  ℕ, ◌+◌, ◌^◌, ◌≤◌, ◌<◌, ltb, ◌==◌, ◌≡◌, refl, sym, ap, ◌∙◌, true, false, not, ◌&&◌, List, [], ◌++◌,
  length, length-append, length-replicate, take-append, drop-append, replicate, arith,
}
use mathlib.Core.List.{append_assoc}
use whisperlib.Prelude.Outcome.{done, branch}
use whisperlib.NumStreaming.{big_endian, write_int32, write_number, read_int32}
use whisperlib.NumStreaming.RoundTrip.{length-write_number, read_number-write_number}
use whisperlib.Recordio.Writer.{Zlib, block_trailer_end, size_minus, block_body, close_block}
use whisperlib.Recordio.Reader.{read_ok, RecordReader, size_of_int32, read_next_block, take_block}

assoc_four : (p a b c d : List ℕ) → p ++ a ++ b ++ c ++ d ≡ p ++ (a ++ (b ++ (c ++ d)))
assoc_four p a b c d =
    append_assoc (p ++ a ++ b) c d
    ∙ append_assoc (p ++ a) b (c ++ d)
    ∙ append_assoc p a (b ++ (c ++ d))

-- The bytes of a block: its body, and the fields that trail it.
abbrev pub trailed : (body : List ℕ) → (content_size prev_crc crc : ℕ) → (tail : List ℕ) → List ℕ
trailed body content_size prev_crc crc tail =
    body
    ++ (write_int32 big_endian content_size []
        ++ (write_int32 big_endian prev_crc [] ++ (write_int32 big_endian crc [] ++ tail)))

module _ (zlib : Zlib) where
  -- ReadNextBlock of a block and what follows it takes the fields as they stand there.
  pub read_fields :
      (r : RecordReader) (body : List ℕ) (content_size prev_crc crc : ℕ) (tail : List ℕ)
      → length body + block_trailer_end ≡ r.block_size
      → r.block_size < 2 ^ 24
      → content_size < 2 ^ 32
      → prev_crc < 2 ^ 32
      → crc < 2 ^ 32
      → read_next_block zlib r (trailed body content_size prev_crc crc tail)
        ≡ done (
          (take_block zlib r body content_size prev_crc crc).0,
          (take_block zlib r body content_size prev_crc crc).1,
          tail,
        )
  unfolding read_next_block read_int32 write_int32 branch
  read_fields r body n prev_crc crc tail h k hn hp hc =
      let rest3 = write_int32 big_endian crc [] ++ tail in
      let rest2 = write_int32 big_endian prev_crc [] ++ rest3 in
      let rest1 = write_int32 big_endian n [] ++ rest2 in
      let lp : length body ≡ size_minus r.block_size block_trailer_end = omega (arith, h, k) in
      let long = length-append body rest1 in
      let long1 = length-append (write_int32 big_endian n []) rest2 in
      let long2 = length-append (write_int32 big_endian prev_crc []) rest3 in
      let long3 = length-append (write_int32 big_endian crc []) tail in
      let w1 = length-write_number big_endian 4 n [] in
      let w2 = length-write_number big_endian 4 prev_crc [] in
      let w3 = length-write_number big_endian 4 crc [] in
      let enough : ltb (length (body ++ rest1)) r.block_size ≡ false =
        ground (arith, h, long, long1, long2, long3, w1, w2, w3) in
      let t = take-append (size_minus r.block_size block_trailer_end) body rest1 lp in
      let d = drop-append (size_minus r.block_size block_trailer_end) body rest1 lp in
      let r1 = (read_number-write_number big_endian 4 n rest2 (omega (arith, hn))).0 in
      let r2 = (read_number-write_number big_endian 4 prev_crc rest3 (omega (arith, hp))).0 in
      let r3 = (read_number-write_number big_endian 4 crc tail (omega (arith, hc))).0 in
      rw (enough, d, t, r1, r2, r3)

module _ (zlib : Zlib) (block_size prev_crc : ℕ) (content : List ℕ) where
  abbrev padding : ℕ
  padding = size_minus (size_minus block_size (length content)) block_trailer_end

  abbrev padded : List ℕ
  padded = content ++ replicate padding 0

  abbrev crc : ℕ
  crc = zlib.crc32 (block_body zlib block_size prev_crc content)

  layout :
      (tail : List ℕ)
      → close_block zlib block_size prev_crc content ++ tail
        ≡ trailed padded (length content) prev_crc crc tail
  unfolding close_block block_body write_int32 write_number
  layout tail =
      assoc_four padded (write_int32 big_endian (length content) [])
        (write_int32 big_endian prev_crc []) (write_int32 big_endian crc []) tail

  length-padded :
      length content + block_trailer_end ≤ block_size
      → block_size < 2 ^ 24
      → length padded + block_trailer_end ≡ block_size
  length-padded h k =
      omega (
        arith,
        h,
        k,
        length-append content (replicate padding 0),
        length-replicate {A = ℕ} padding 0,
      )

  same_crc : (crc == crc) ≡ true
  same_crc = ground arith

  -- The block is taken, if the reader expects it.
  taken :
      (r : RecordReader)
      → r.block_size ≡ block_size
      → r.prev_block_crc ≡ prev_crc
      → length content + block_trailer_end ≤ block_size
      → block_size < 2 ^ 24
      → take_block zlib r padded (length content) prev_crc crc
        ≡ (read_ok, record r { prev_block_crc = crc; content = r.content ++ content })
  unfolding take_block block_body
  taken r same before h k =
      let short : size_of_int32 (length content) ≡ length content = ground (arith, h, k) in
      let fits : ltb (size_minus r.block_size block_trailer_end) (length content) ≡ false =
        ground (arith, h, k, same) in
      let expected : (not (prev_crc == 0)
            && (not (r.prev_block_crc == 0) && not (prev_crc == r.prev_block_crc)))
          ≡ false =
        ground (arith, before) in
      let whole = take-append (length content) content (replicate padding 0) refl in
      rw (same_crc, short, fits, expected, whole)

  -- A block that the writer closed is read, if the reader expects it after the blocks that it has read.
  pub read_block :
      (r : RecordReader) (tail : List ℕ)
      → r.block_size ≡ block_size
      → r.prev_block_crc ≡ prev_crc
      → length content + block_trailer_end ≤ block_size
      → block_size < 2 ^ 24
      → prev_crc < 2 ^ 32
      → crc < 2 ^ 32
      → read_next_block zlib r (close_block zlib block_size prev_crc content ++ tail)
        ≡ done (read_ok, record r { prev_block_crc = crc; content = r.content ++ content }, tail)
  read_block r tail same before h k hp hc =
      ap (read_next_block zlib r) (layout tail)
      ∙ read_fields zlib r padded (length content) prev_crc crc tail (length-padded h k ∙ sym same)
          (omega (arith, same, k)) (omega (arith, h, k)) hp hc
      ∙ ap (λ t. done (t.0, t.1, tail)) (taken r same before h k)
