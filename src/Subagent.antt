-- ===== src/Subagent.antt =====
-- internal/engine/subagent.
pub mod Mailbox
pub mod Broker
pub mod World
pub mod Collect
pub mod Table
pub mod Agents
pub mod Registry
mod Tests
