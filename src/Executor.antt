-- ===== src/Executor.antt =====
-- crates/executor: the checks and questions before an action runs, and what a run remembers.
pub mod Dispatch
pub mod Runs
pub mod Redaction
pub mod Interpreters
pub mod Compaction
