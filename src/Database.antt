-- ===== src/Database.antt =====
-- database/: where mapped data is stored, and what is asked of the store.
pub mod Rows
pub mod Queries
pub mod MappedRows
pub mod MappedRowsLaws
pub mod Batch
pub mod BatchLaws
pub mod MessageCache
pub mod MessageCacheLaws
mod CacheTests
mod Tests
