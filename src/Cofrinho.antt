-- ===== src/Cofrinho.antt =====
-- The gift contributions of an event: internal/domain/cofrinho, internal/usecase/cofrinho and
-- internal/adapter/mongodb/cofrinho.go.
pub mod Domain
pub mod Repository
pub mod UseCases
pub mod Confirmed
mod Tests
