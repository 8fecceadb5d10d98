-- ===== src/Chain/Manager.antt =====
-- linera-chain/src/manager/mod.rs: the certification of a chain's next block, for a chain without
-- owner, with one owner or with several. `panic!` and a `?` are results of their own.
pub mod Sampling
pub mod Multi
pub mod Single
pub mod Info
pub mod Kinds
