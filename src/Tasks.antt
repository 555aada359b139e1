-- ===== src/Tasks.antt =====
-- tasks/: periodic tasks, their format strings and the scheduler that runs them.
pub mod Clock
pub mod Task
pub mod Format
pub mod Scheduler
pub mod Examples
