-- ===== src/Runners.antt =====
-- crates/runners/src/lib.rs: who answers the questions of a run, which inputs a run takes, and the prompt of a
-- runner.
pub mod Approval
pub mod Options
pub mod Prompt
pub mod Actions
