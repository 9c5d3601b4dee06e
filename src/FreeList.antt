-- ===== src/FreeList.antt =====
-- base/free_list.h: lists of objects that are kept for reuse.
pub mod Lists
pub mod Reuse
mod Tests
