-- ===== src/Core.antt =====
-- The agent core, internal/core: messages, hooks, the stream accumulator, tools, the loop, events.
pub mod Message
pub mod Error
pub mod Validate
pub mod Assembly
pub mod Session
pub mod Hooks
pub mod Accumulator
pub mod Exec
pub mod Journal
pub mod Emit
pub mod Tools
pub mod Inputs
pub mod Loop
pub mod Run
pub mod Bus
mod Tests
