-- ===== src/Auth/Refresh.antt =====
-- auth/refresh_scheduler.go: the tasks that refresh the tokens of accounts, their queues, their
-- execution and their retries.
pub mod Tasks
pub mod Queue
pub mod Scheduler
pub mod Execution
pub mod Front
pub mod Dispatch
pub mod Blocked
pub mod Run
pub mod Queued
pub mod Runs
pub mod Cancelled
pub mod Times
