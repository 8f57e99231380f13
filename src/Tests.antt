-- ===== src/Tests.antt =====
-- Runs of the model on small inputs, and the theorems at inputs that meet their hypotheses.
pub mod Fractions
pub mod Samples
pub mod Loads
pub mod Stages
pub mod Distribution
pub mod Jobs
pub mod Annotations
pub mod Saving
pub mod Finish
pub mod Removal
pub mod Books
pub mod Extensive
pub mod Pipelines
