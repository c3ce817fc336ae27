-- ===== src/Engine.antt =====
-- apps/augury-signal/augury_signal/engine/lmsr.py: the logarithmic market scoring rule.
mod Lmsr
mod Depth
mod Maker
pub mod Trades
pub mod Laws
pub mod Books
unfoldable pub use Lmsr.*
unfoldable pub use Depth.*
unfoldable pub use Maker.*
