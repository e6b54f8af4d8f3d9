-- ===== src/TopUp.antt =====
-- episode-access/coin-topup: Coins bought with a payment gateway.
pub mod Rows
pub mod Sample
mod Tests
pub mod Settlement
pub mod Lookup
pub mod Callback
pub mod Opening
pub mod Create
pub mod Deliveries
pub mod Webhook
pub mod Ipn
pub mod Expiry
pub mod Reconcile
pub mod Gateway
pub mod Credited
