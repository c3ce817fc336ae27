-- ===== src/Analytics.antt =====
-- apps/augury-signal/augury_signal/analytics/: scoring.py and leadlag.py.
mod Scoring
mod LeadLag
pub mod Skill
pub mod Lags
pub mod Corrected
unfoldable pub use Scoring.*
unfoldable pub use LeadLag.*
