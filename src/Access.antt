-- ===== src/Access.antt =====
-- Who may watch an episode, and how the right is bought (src/modules/episode-access).
pub mod Rows
pub mod Decision
pub mod Episodes
pub mod Series
pub mod Refunds
mod Tests
