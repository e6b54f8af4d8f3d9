-- ===== src/Identity.antt =====
-- Accounts and permissions (src/modules/identity/access-control, src/common/auth).
pub mod Permissions
pub mod AccessControl
mod Tests
