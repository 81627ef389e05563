-- ===== src/Models/Database.antt =====
-- The database, with the tables that the modelled services use, and the queue of mail deliveries.
use ai_recruitment.Common.{ℕ, List}
use ai_recruitment.Common.Table.{Table}
use ai_recruitment.Models.Applications.{Application}
use ai_recruitment.Models.Decisions.{
  HiringDecision, StatusLog, AnalysisVersion, Analysis, Round, Transcript,
}
use ai_recruitment.Models.Screenings.{ScreeningDecision, AiResult}
use ai_recruitment.Models.OfferRows.{Offer, OfferVersion, OfferSendAttempt}
use ai_recruitment.Models.AuditRows.{AuditLog, IdempotencyKey}

pub record Db : Type 0 where
  pub applications : Table Application
  pub hiring_decisions : Table HiringDecision
  pub screening_decisions : Table ScreeningDecision
  pub ai_results : Table AiResult
  pub status_logs : List StatusLog
  pub analysis_versions : Table AnalysisVersion
  pub analyses : Table Analysis
  pub rounds : Table Round
  pub transcripts : Table Transcript
  pub offers : Table Offer
  pub offer_versions : Table OfferVersion
  pub send_attempts : Table OfferSendAttempt
  pub idempotency_keys : List IdempotencyKey
  pub audit_logs : List AuditLog
  -- `apply_async` on the mail queue: the attempt and the countdown in seconds
  pub mail_queue : List (ℕ × ℕ)
