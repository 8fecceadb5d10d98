-- ===== src/Chain.antt =====
-- linera-chain: blocks, votes and certificates, the inbox and the outbox, and the chain managers.
pub mod DataTypes
pub mod Crypto
pub mod MessageIds
pub mod Errors
pub mod Certificates
pub mod Inbox
pub mod Outbox
pub mod State
pub mod Manager
pub mod Consensus
