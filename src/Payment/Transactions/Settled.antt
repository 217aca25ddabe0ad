-- ===== src/Payment/Transactions/Settled.antt =====
-- A transaction that has reached a final status is never changed again.
mod Relation
mod Quiet
mod Rules
pub use Quiet.*
pub use Relation.*
pub use Rules.*
