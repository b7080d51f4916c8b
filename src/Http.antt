-- ===== src/Http.antt =====
-- The HTTP layer's shared parts.
pub mod Pagination
mod Tests
