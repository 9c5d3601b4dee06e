-- ===== src/Strings.antt =====
-- base/strutil.cc: functions on strings, which are lists of bytes.
pub mod Escape
pub mod Next
mod Tests
