-- ===== src/Cli.antt =====
-- apps/augury-signal/augury_signal/cli.py: the commands.
mod Cycle
mod Commands
pub mod Kept
pub mod Worked
pub mod Mirrored
unfoldable pub use Cycle.*
unfoldable pub use Commands.*
