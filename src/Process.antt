-- ===== src/Process.antt =====
-- src/process: the task states and the pipes.
pub mod Task
pub mod Pipe
