-- ===== src/XClient.antt =====
-- apps/augury-signal/augury_signal/clients/x.py: the search clients.
mod Fixture
mod Live
mod Client
pub mod Replayed
pub mod Spending
unfoldable pub use Fixture.*
unfoldable pub use Live.*
unfoldable pub use Client.*
