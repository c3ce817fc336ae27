-- ===== src/Orchestrator.antt =====
-- apps/augury-signal/augury_signal/pipeline/orchestrator.py: the assets.
mod Assets
mod Derived
pub mod Backlog
pub mod Calibrated
unfoldable pub use Assets.*
unfoldable pub use Derived.*
