-- ===== src/Store.antt =====
-- internal/store: the local database's tables and the operations on them.
pub mod Restate
pub mod Reread
pub mod Watch
pub mod Watched
pub mod Registry
pub mod Table
pub mod Insertion
pub mod Rules
pub mod Reingest
pub mod Steps
pub mod Sequence
pub mod IngestState
