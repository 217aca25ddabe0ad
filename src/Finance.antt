-- ===== src/Finance.antt =====
-- The finances of an event: internal/domain/finance, internal/usecase/finance/finance.go, and the
-- repositories finance.go and participant.go of internal/adapter/mongodb.
pub mod Domain
pub mod Rules
pub mod Repository
pub mod UseCases
pub mod Pages
pub mod Default
pub mod Reminders
mod Tests
