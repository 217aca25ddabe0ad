-- ===== src/Social/Domain.antt =====
-- internal/domain/social/social.go.
mod Entities
mod Providers
unfoldable pub use Entities.*
unfoldable pub use Providers.*
