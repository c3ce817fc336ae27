-- ===== src/Pipeline.antt =====
-- apps/augury-signal/augury_signal/pipeline/steps.py: the steps of the pipeline.
mod Lookup
mod Posts
mod Build
mod Simulation
mod Resolution
mod Payout
mod Watcher
mod Polling
pub mod Synced
pub mod Sorting
pub mod Covered
pub mod Settling
pub mod Once
pub mod Grid
pub mod Lookahead
unfoldable pub use Lookup.*
unfoldable pub use Posts.*
unfoldable pub use Build.*
unfoldable pub use Simulation.*
unfoldable pub use Resolution.*
unfoldable pub use Payout.*
unfoldable pub use Watcher.*
unfoldable pub use Polling.*
