-- ===== src/Tables.antt =====
-- tables: the columns, their decoders, the equality index, the query, the cache and the row build.
pub mod Columns
pub mod Specs
pub mod Decode
pub mod Time
pub mod Cell
pub mod Query
pub mod Rows
pub mod Cache
pub mod Serve
pub mod Pipeline
mod Tests
