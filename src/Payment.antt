-- ===== src/Payment.antt =====
-- The payment subsystem: internal/domain/payment, internal/usecase/payment, and the repositories of
-- internal/adapter/mongodb that it writes through.
pub mod Domain
pub mod Transactions
pub mod Installments
pub mod Webhooks
pub mod Subledger
pub mod Fees
pub mod Allocation
pub mod Callback
pub mod Reconcile
pub mod Expire
pub mod Process
pub mod Batch
pub mod Accounts
pub mod Access
pub mod Workflows
pub mod Tests
