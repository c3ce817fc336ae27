-- ===== src/Bus.antt =====
-- apps/augury-signal/augury_signal/bus.py: the messages to the other services.
mod Payloads
mod Publisher
pub mod Delivery
unfoldable pub use Payloads.*
unfoldable pub use Publisher.*
