-- ===== src/Event.antt =====
-- Events and their drafts: internal/domain/event, internal/usecase/event, and the repositories
-- evento.go and evento_draft.go of internal/adapter/mongodb.
pub mod Domain
pub mod Drafts
pub mod Eventos
pub mod UseCases
pub mod ReadBack
pub mod Newer
pub mod Stale
pub mod Publishing
mod Tests
