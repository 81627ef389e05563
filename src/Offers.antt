-- ===== src/Offers.antt =====
-- Offers: drafting, sending and delivery (backend/app/services/offers.py,
-- backend/app/workers/mail_tasks.py, backend/app/repositories/offers.py).
pub mod Masking
pub mod Base
pub mod Store
pub mod Drafts
pub mod Edits
pub mod Sending
pub mod Worker
pub mod Moves
pub mod Settlement
pub mod Finality
pub mod Active
pub mod Versions
pub mod Delivery
pub mod Promises
pub mod Reclaims
pub mod Samples
mod Tests
mod PromiseTests
pub mod System
