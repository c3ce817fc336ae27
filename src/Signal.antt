-- ===== src/Signal.antt =====
-- apps/augury-signal/augury_signal/signal/: calibration.py, decay.py and stance.py.
mod Calibration
pub mod Bisect
mod Decay
mod Platt
mod HalfLife
mod Baseline
mod Scorers
mod Transformer
pub mod Batches
pub mod Labels
pub mod Fitting
pub mod Window
pub mod Bounds
pub mod Buckets
unfoldable pub use Calibration.*
unfoldable pub use Platt.*
unfoldable pub use Decay.*
unfoldable pub use HalfLife.*
unfoldable pub use Baseline.*
unfoldable pub use Scorers.*
unfoldable pub use Transformer.*
