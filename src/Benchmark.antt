-- ===== src/Benchmark.antt =====
-- internal/benchmark: the worker pool that runs benchmark jobs, and the report on their outcomes.
pub mod Pool
pub mod Report
pub mod Matrix
pub mod Task
pub mod Stats
pub mod Scheduler
mod Tests
