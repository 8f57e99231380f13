-- ===== src/Distribution.antt =====
-- annotation/annotation/distribution/main.py, a child for each stage of the algorithm.
pub mod Types
pub mod Unassigned
pub mod Combination
pub mod Annotated
pub mod Loads
pub mod Files
pub mod Tasks
pub mod Whole
pub mod Partial
pub mod Load
pub mod Validation
pub mod Extensive
pub mod Run
