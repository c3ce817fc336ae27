-- ===== src/Venues.antt =====
-- The clients of the two venues.
mod Money
mod Levels
pub mod Kalshi
pub mod Polymarket
pub mod Best
pub mod Listed
pub mod Tokens
pub mod Series
unfoldable pub use Money.*
unfoldable pub use Levels.*
