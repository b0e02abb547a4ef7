-- ===== src/Tests.antt =====
-- Runs at concrete inputs, and each theorem with hypotheses at an input that meets them.
mod Permissions
mod Dispatch
mod Sessions
mod Approvals
mod Runs
mod Services
mod Grants
mod Shell
mod Ui
mod Durable
mod Compaction
mod Gateway
mod Runners
mod Fs
