-- ===== src/Budget.antt =====
-- apps/augury-signal/augury_signal/clients/budget.py: the persisted daily read budget.
-- The file is the state. The day and the machine's local date are arguments.
mod Ledger
mod Report
pub mod Laws
unfoldable pub use Ledger.*
unfoldable pub use Report.*
