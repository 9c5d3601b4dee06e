-- ===== src/Recordio/Pieces.antt =====
-- The format of io/logio/recordio.h: a block is a sequence of pieces, and a record is a piece with IS_FIRST
-- and those that continue it, up to one without HAS_CONT.
use whisperlib.Prelude.{
  ℕ, ◌+◌, ◌^◌, ◌≤◌, ◌<◌, ◌≡◌, refl, sym, ap, ◌∙◌, Bool, true, false, List, [], ◌∷◌, ◌++◌, length,
  length-append, arith,
}
use mathlib.Core.List.{append_assoc, append-nil}
use whisperlib.NumStreaming.{big_endian, little_endian, write_byte, write_uint24, write_number}
use whisperlib.NumStreaming.RoundTrip.{length-write_number}
use whisperlib.Recordio.Writer.{
  Zlib, block_trailer_end, has_cont, first_flag, block_body, close_block,
}

pub record Piece : Type 0 where
  pub flags : ℕ
  pub bytes : List ℕ

unfoldable pub encode_piece : Piece → List ℕ
encode_piece p = write_uint24 big_endian (length p.bytes) (write_byte p.flags []) ++ p.bytes

unfoldable pub encode : List Piece → List ℕ
encode [] = []
encode (p ∷ ps) = encode_piece p ++ encode ps

-- The pieces of a record; `first` says whether the record begins with them.
pub data Pieces : (first : Bool) → (bytes : List ℕ) → List Piece → Type 0 where
  last :
      (first : Bool) (bytes : List ℕ)
      → Pieces first bytes (record { flags = first_flag first; bytes = bytes } ∷ [])
  more :
      (first : Bool) (chunk bytes : List ℕ) (ps : List Piece)
      → 1 ≤ length chunk
      → Pieces false bytes ps
      → Pieces first
          (chunk ++ bytes)
          (record { flags = has_cont + first_flag first; bytes = chunk } ∷ ps)

-- The pieces of records, one after the other.
pub data Records : List (List ℕ) → List Piece → Type 0 where
  none_left : Records [] []
  one_more :
      (bytes : List ℕ) (rs : List (List ℕ)) (ps qs : List Piece)
      → Pieces true bytes ps
      → Records rs qs
      → Records (bytes ∷ rs) (ps ++ qs)

pub encode-append : (ps qs : List Piece) → encode (ps ++ qs) ≡ encode ps ++ encode qs
unfolding encode
encode-append [] qs = refl
encode-append (p ∷ ps) qs =
    ap (λ l. encode_piece p ++ l) (encode-append ps qs)
    ∙ sym (append_assoc (encode_piece p) (encode ps) (encode qs))

pub length-encode_piece : (p : Piece) → length (encode_piece p) ≡ 4 + length p.bytes
unfolding encode_piece write_uint24 write_byte
length-encode_piece p = omega (
  arith,
  length-append (write_number big_endian 3 (length p.bytes) (write_byte p.flags [])) p.bytes,
  length-write_number big_endian 3 (length p.bytes) (write_byte p.flags []),
  length-write_number little_endian 1 p.flags [],
)

module _ (zlib : Zlib) (block_size : ℕ) where
  -- The checksum of a block of these pieces after a block with this checksum.
  unfoldable pub crc_of : (prev_crc : ℕ) → List Piece → ℕ
  crc_of prev_crc ps = zlib.crc32 (block_body zlib block_size prev_crc (encode ps))

  unfoldable pub blocks : (prev_crc : ℕ) → List (List Piece) → List ℕ
  blocks prev_crc [] = []
  blocks prev_crc (b ∷ bs) =
      close_block zlib block_size prev_crc (encode b) ++ blocks (crc_of prev_crc b) bs

  unfoldable pub last_crc : (prev_crc : ℕ) → List (List Piece) → ℕ
  last_crc prev_crc [] = prev_crc
  last_crc prev_crc (b ∷ bs) = last_crc (crc_of prev_crc b) bs

  pub blocks-append_one :
      (prev_crc : ℕ) (bs : List (List Piece)) (b : List Piece)
      → blocks prev_crc (bs ++ b ∷ [])
        ≡ blocks prev_crc bs ++ close_block zlib block_size (last_crc prev_crc bs) (encode b)
  unfolding blocks last_crc
  blocks-append_one prev_crc [] b = append-nil (close_block zlib block_size prev_crc (encode b))
  blocks-append_one prev_crc (c ∷ bs) b =
      ap (λ l. close_block zlib block_size prev_crc (encode c) ++ l)
        (blocks-append_one (crc_of prev_crc c) bs b)
      ∙ sym (
          append_assoc (close_block zlib block_size prev_crc (encode c))
            (blocks (crc_of prev_crc c) bs)
            (close_block zlib block_size (last_crc (crc_of prev_crc c) bs) (encode b)))

  pub last_crc-append_one :
      (prev_crc : ℕ) (bs : List (List Piece)) (b : List Piece)
      → last_crc prev_crc (bs ++ b ∷ []) ≡ crc_of (last_crc prev_crc bs) b
  unfolding last_crc
  last_crc-append_one prev_crc [] b = refl
  last_crc-append_one prev_crc (c ∷ bs) b = last_crc-append_one (crc_of prev_crc c) bs b

abbrev pub join : List (List Piece) → List Piece
join [] = []
join (b ∷ bs) = b ++ join bs

pub join-append_one : (bs : List (List Piece)) (b : List Piece) → join (bs ++ b ∷ []) ≡ join bs ++ b
join-append_one [] b = append-nil b
join-append_one (c ∷ bs) b =
    ap (λ l. c ++ l) (join-append_one bs b) ∙ sym (append_assoc c (join bs) b)

-- A block that the reader takes: not empty, of pieces that their headers can describe, and no longer than
-- a block may be.
abbrev pub ArePieces : List Piece → Type 0
ArePieces [] = Unit {0}
ArePieces (p ∷ ps) = (p.flags < 256) × ((length p.bytes < 2 ^ 24) × ArePieces ps)

abbrev pub IsBlock : (block_size : ℕ) → List Piece → Type 0
IsBlock block_size ps =
    (1 ≤ length ps) × (ArePieces ps × (length (encode ps) + block_trailer_end ≤ block_size))

abbrev pub AreBlocks : (block_size : ℕ) → List (List Piece) → Type 0
AreBlocks block_size [] = Unit {0}
AreBlocks block_size (b ∷ bs) = IsBlock block_size b × AreBlocks block_size bs

pub AreBlocks-append_one :
    (block_size : ℕ) (bs : List (List Piece)) (b : List Piece)
    → AreBlocks block_size bs
    → IsBlock block_size b
    → AreBlocks block_size (bs ++ b ∷ [])
AreBlocks-append_one block_size [] b h k = (k, tt)
AreBlocks-append_one block_size (c ∷ bs) b h k = (h.0, AreBlocks-append_one block_size bs b h.1 k)
