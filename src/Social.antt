-- ===== src/Social.antt =====
-- Social features of an event: internal/domain/social, internal/usecase/social and
-- internal/adapter/mongodb/social.go.
pub mod Domain
pub mod Auth
pub mod Repository
pub mod UseCases
pub mod Requests
pub mod Documents
pub mod Limits
pub mod Roles
pub mod Claims
mod Tests
