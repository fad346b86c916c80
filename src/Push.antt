-- ===== src/Push.antt =====
-- crates/server/src/routes/sync_routes.rs: the push of a device's operations, and the other requests
-- of the synchronisation.
pub mod Items
pub mod Batch
pub mod Requests
