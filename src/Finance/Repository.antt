-- ===== src/Finance/Repository.antt =====
-- The repositories of internal/adapter/mongodb/finance.go, and the read side of participant.go. The
-- identifiers that a query turns into a UUID are turned by `uuid_binary`, those of the accounts' users
-- aside.
mod Records
mod Accounts
unfoldable pub use Records.*
unfoldable pub use Accounts.*
