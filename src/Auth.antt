-- ===== src/Auth.antt =====
-- crates/auth/src/lib.rs (`AuthService`) and the requests of
-- crates/server/src/routes/auth_routes.rs and crates/server/src/extract.rs.
pub mod Service
pub mod Requests
pub mod Steps
pub mod Names
pub mod Keys
pub mod Sessions
pub mod Access
pub mod Registration
pub mod Retaken
mod Tests
