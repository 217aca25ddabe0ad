-- ===== src/Payment/Domain.antt =====
-- internal/domain/payment, and the records of internal/port/in and internal/port/out around it.
-- A time is a count of nanoseconds, with 0 for the zero `time.Time`; a `*time.Time` is an Option.
-- A float64 is its bit pattern; the operations on it are a parameter (`World.FloatOps`).
mod Transaction
mod Installment
mod Requests
mod Account
unfoldable pub use Transaction.*
unfoldable pub use Installment.*
unfoldable pub use Requests.*
unfoldable pub use Account.*
