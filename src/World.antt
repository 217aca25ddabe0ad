-- ===== src/World.antt =====
-- What the payment use cases act on: the collections of the shared database, the calls that reach
-- Temporal and the payment provider, and the outside (driver failures, clock, identifiers, provider
-- replies) as a parameter. `calls` counts the outside calls made; each one reads the parameter at
-- that count, so that every interleaving of failures and replies is a choice of the parameter.
mod Outside
mod Monad
pub mod Within
pub mod Inversion
pub mod Leaves
unfoldable pub use Outside.*
unfoldable pub use Monad.*
