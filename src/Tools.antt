-- ===== src/Tools.antt =====
-- internal/engine/tools.
pub mod Pool
mod Tests
