-- ===== src/Scheduler.antt =====
-- Scheduled work on tasks: src/scheduler/performance.task.ts.
mod Overdue
mod Detection
mod Tests
