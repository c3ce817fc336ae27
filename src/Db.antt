-- ===== src/Db.antt =====
-- apps/augury-signal/augury_signal/db.py: the persistence layer. A database is a record of tables,
-- a table is a list of rows, and a method is a function of the database. The SQL of each statement
-- is read as it stands; constraints that the migrations add beside the conflict targets (foreign
-- keys, checks) and the failure of a connection are not modelled.
mod Table
mod Rows
mod Markets
mod Posts
mod Series
mod Ledger
mod Maintenance
pub mod Upserts
pub mod Rerun
pub mod Fills
pub mod Backlog
pub mod Effects
unfoldable pub use Table.*
unfoldable pub use Rows.*
unfoldable pub use Markets.*
unfoldable pub use Posts.*
unfoldable pub use Series.*
unfoldable pub use Ledger.*
unfoldable pub use Maintenance.*
