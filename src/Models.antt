-- ===== src/Models.antt =====
-- The rows that the services share (backend/app/models): applications, hiring decisions, offers,
-- analyses, audit entries, and the database that holds them.
mod Applications
mod Decisions
mod Screenings
mod OfferRows
mod AuditRows
mod Database
pub use Applications.*
pub use Decisions.*
pub use Screenings.*
pub use OfferRows.*
pub use AuditRows.*
pub use Database.*
