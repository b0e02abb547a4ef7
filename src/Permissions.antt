-- ===== src/Permissions.antt =====
-- crates/permissions: permission slugs, the grants file and the engine that decides on an action.
pub mod Pattern
pub mod Host
pub mod Slug
pub mod Grants
pub mod Engine
