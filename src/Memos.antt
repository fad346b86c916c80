-- ===== src/Memos.antt =====
-- crates/store/src/memos.rs: the notes.
pub mod Queries
pub mod Contents
pub mod Request
pub mod Snapshot
pub mod Save
pub mod Lifecycle
pub mod Create
pub mod Open
pub mod List
pub mod Revisions
pub mod Index
