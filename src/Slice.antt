-- ===== src/Slice.antt =====
-- apps/augury-signal/augury_signal/pipeline/slice.py: the vertical slice, one market from end to end.
mod Aligned
mod Analysis
mod Run
pub mod Hours
pub mod Reported
pub mod Persisted
pub mod Scored
unfoldable pub use Aligned.*
unfoldable pub use Analysis.*
unfoldable pub use Run.*
