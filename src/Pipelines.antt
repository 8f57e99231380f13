-- ===== src/Pipelines.antt =====
-- pipelines/pipelines: a pipeline as a tree of steps, and the execution of a task, which runs a step for each
-- of them.
pub mod Types
pub mod Arguments
pub mod Graph
pub mod Tables
pub mod Execution
