-- ===== src/Project.antt =====
-- Movie projects: the life of a project, its production fee and the Token budgets
-- (src/modules/production).
pub mod Rows
pub mod Rules
pub mod Tokens
pub mod Lifecycle
pub mod Pricing
mod Tests
