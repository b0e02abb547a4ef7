-- ===== src/Shell.antt =====
-- crates/shell: what a sandboxed child may reach, what is kept of its output, and its resolver.
pub mod Output
pub mod Policy
pub mod PermitSet
pub mod Gateway
pub mod Dns
