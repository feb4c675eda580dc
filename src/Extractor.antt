-- ===== src/Extractor.antt =====
-- internal/extractor: what a server holds, read from it and put onto another one.
pub mod Restore
pub mod Read
pub mod Reads
pub mod Certs
pub mod Sqlite
pub mod State
pub mod Stream
