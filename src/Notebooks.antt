-- ===== src/Notebooks.antt =====
-- crates/store/src/notebooks.rs: the tree of notebooks.
pub mod Queries
pub mod Edit
pub mod Order
pub mod Steps
pub mod Tree
pub mod Inbox
pub mod Tests
