-- ===== src/Context.antt =====
-- The context management of internal/engine/context.
pub mod Ring
pub mod Estimate
pub mod Strategy
pub mod Plan
pub mod Manager
mod Tests
