-- ===== src/Logio.antt =====
-- io/logio/logio.{h,cc}: positions in a log of numbered files, and the files.
pub mod Position
pub mod Files
pub mod Multiples
pub mod Writer
pub mod Growing
pub mod Sound
pub mod Draining
pub mod Run
mod Tests
