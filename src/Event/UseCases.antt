-- ===== src/Event/UseCases.antt =====
-- internal/usecase/event: draft.go and evento.go.
mod Draft
mod Published
unfoldable pub use Draft.*
unfoldable pub use Published.*
