-- ===== src/Finance/Domain.antt =====
-- internal/domain/finance/entities.go.
mod Entities
unfoldable pub use Entities.*
