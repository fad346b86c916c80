-- ===== src/Domain.antt =====
-- crates/domain/src: the pure part of the server (errors, etags, Markdown).
pub mod ErrorCode
pub mod Error
pub mod Etag
pub mod Markdown
pub mod Tests
