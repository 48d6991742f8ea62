-- ===== src/Blockchain.antt =====
-- jormungandr/src/blockchain: the node's chain of blocks.
pub mod Types
pub mod Storage
pub mod Reference
pub mod Chain
pub mod Apply
pub mod Startup
pub mod Selection
pub mod Checkpoints
pub mod Candidate
pub mod Tip
pub mod Process
pub mod Bootstrap
