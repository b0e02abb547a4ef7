-- ===== src/Fs.antt =====
-- crates/fs: patches of files.
pub mod Patch
