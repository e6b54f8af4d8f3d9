-- ===== src/TopUp/Gateway.antt =====
-- coin-topup/gateways.
pub mod Crypto
pub mod Momo
pub mod Vnpay
pub mod Config
pub mod Links
pub mod Probes
pub mod Service
pub mod Forgery
pub mod Signed
mod Tests
