-- ===== src/Payment/Tests.antt =====
-- The theorems on the payment subsystem at concrete inputs.
pub mod Data
mod Webhooks
mod Settling
mod Payments
mod Access
