-- ===== src/Recordio.antt =====
-- io/logio/recordio.{h,cc}: records in blocks of one size, each block with a checksum.
pub mod Writer
pub mod Reader
pub mod Pieces
pub mod Reading
pub mod Records
pub mod Steps
pub mod Whole
pub mod Sequence
pub mod Writing
pub mod Appending
pub mod RoundTrip
pub mod Streams
pub mod Errors
pub mod Termination
mod Tests
