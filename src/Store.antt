-- ===== src/Store.antt =====
-- crates/store/src: the database that the repositories share, and the monad of their methods.
pub mod Rows
pub mod Accounts
pub mod Messages
pub mod Env
pub mod State
pub mod Example
pub mod Action
