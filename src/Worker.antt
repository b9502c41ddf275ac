-- ===== src/Worker.antt =====
-- src/worker/tasks: the background jobs.
pub mod Process
pub mod Memory
