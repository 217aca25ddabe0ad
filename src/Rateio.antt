-- ===== src/Rateio.antt =====
-- Cost splits: internal/domain/rateio, internal/usecase/rateio and internal/adapter/mongodb/rateio.go.
pub mod Domain
pub mod Repository
pub mod UseCases
pub mod Requests
pub mod Loaded
pub mod Frozen
pub mod Closing
pub mod ReadBack
mod Tests
