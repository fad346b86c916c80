-- ===== src/Users.antt =====
-- crates/store/src/users.rs (`UserRepo`): accounts, workspaces, sessions and API tokens.
pub mod Queries
pub mod Accounts
pub mod Tokens
pub mod Keys
pub mod Inserted
