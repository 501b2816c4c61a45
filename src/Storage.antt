-- ===== src/Storage.antt =====
-- internal/engine/storage.
pub mod Buffer
pub mod Pipeline
pub mod Drain
pub mod Journal
mod Tests
