-- ===== src/Models.antt =====
-- apps/augury-signal/augury_signal/models.py: the records that the service passes around.
mod Time
mod Enums
mod Listing
mod Query
mod Series
pub mod Laws
unfoldable pub use Time.*
unfoldable pub use Enums.*
unfoldable pub use Listing.*
unfoldable pub use Query.*
unfoldable pub use Series.*
