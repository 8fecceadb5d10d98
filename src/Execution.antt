-- ===== src/Execution.antt =====
-- linera-execution: committees, ownership, and the messages and operations of blocks.
pub mod Committee
pub mod Messages
pub mod Ownership
pub mod Policy
pub mod Errors
pub mod Registry
pub mod System
