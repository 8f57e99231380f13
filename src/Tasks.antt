-- ===== src/Tasks.antt =====
-- annotation/annotation/tasks: the end of a task.
pub mod Finish
