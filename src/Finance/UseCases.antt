-- ===== src/Finance/UseCases.antt =====
-- internal/usecase/finance/finance.go.
pub mod Reports
pub mod Status
pub mod Accounts
unfoldable pub use Reports.*
unfoldable pub use Status.*
unfoldable pub use Accounts.*
