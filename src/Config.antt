-- ===== src/Config.antt =====
-- apps/augury-signal/augury_signal/config.py: the settings and the tracked markets.
mod Environment
mod Tracked
mod Loading
pub mod Loaded
unfoldable pub use Environment.*
unfoldable pub use Tracked.*
unfoldable pub use Loading.*
