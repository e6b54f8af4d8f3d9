-- ===== src/Membership.antt =====
-- episode-access/membership-plan and episode-access/subscription: plans, and who is on one.
pub mod Plans
pub mod Joining
pub mod Activation
pub mod AutoRenew
pub mod Ending
pub mod Renewal
pub mod Sweep
pub mod Keeps
pub mod Pricing
pub mod Recorded
pub mod Renewed
pub mod Renewable
pub mod Outcome
mod Tests
