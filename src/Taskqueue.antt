-- ===== src/Taskqueue.antt =====
-- agent/taskqueue.py: what a task says about when it may run, and the queue that honours it.
pub mod Schedule
pub mod Queue
