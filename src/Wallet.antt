-- ===== src/Wallet.antt =====
-- The Coin wallet (src/modules/episode-access/coin-wallet).
pub mod Rows
pub mod Sums
pub mod Consistent
pub mod Lots
pub mod Spend
pub mod Adjust
pub mod Expiry
pub mod Members
pub mod Reach
pub mod Sample
mod Tests
