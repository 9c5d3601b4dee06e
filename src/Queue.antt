-- ===== src/Queue.antt =====
-- sync/producer_consumer_queue.h: a bounded queue between threads.
pub mod Calls
pub mod Flow
pub mod Bounds
mod Tests
