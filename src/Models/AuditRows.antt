-- ===== src/Models/AuditRows.antt =====
-- Audit entries (backend/app/services/audit.py) and idempotency records
-- (`InterviewIdempotencyKey` of backend/app/models/interview.py).
use ai_recruitment.Common.{ℕ, Bool, Option, List}
use ai_recruitment.Common.Text.{Text}
use ai_recruitment.Models.Applications.{PipelineStatus}
use ai_recruitment.Models.Decisions.{Decision, Reason}
use ai_recruitment.Models.Screenings.{ScreeningChoice}
use ai_recruitment.Models.OfferRows.{OfferStatus, AttemptStatus}

pub data AuditAction : Type 0 where
  offer_created offer_updated offer_marked_ready offer_voided : AuditAction
  offer_send_confirmed offer_retry_requested offer_send_attempt_finished : AuditAction
  offer_stale_send_attempt_recovered application_hiring_decision : AuditAction
  application_screening_decision : AuditAction

-- One key of `changes` with its value.
pub data Change : Type 0 where
  application_id offer_id hiring_decision_id lock_version version_no version_id : ℕ → Change
  attempt_id attempt_no age_seconds started_at expected_updated_at finished_at : ℕ → Change
  content_hash : Text → Change
  offer_status from_status to_status : OfferStatus → Change
  attempt_status : AttemptStatus → Change
  recipient_email_masked idempotency_key void_reason_code error_code : Option Text → Change
  decision : Decision → Change
  reason : Reason → Change
  from_pipeline to_pipeline : PipelineStatus → Change
  analysis_version_id round_id : ℕ → Change
  overall_score : Option ℕ → Change
  screening_decision : ScreeningChoice → Change
  screening_reason : Option Text → Change
  score_result_id : Option ℕ → Change

pub record AuditLog : Type 0 where
  pub action : AuditAction
  pub success : Bool
  pub actor_user_id : Option ℕ
  pub resource_id : ℕ
  pub changes : List Change

-- The `action` column of an idempotency record, as far as offers use it.
pub data IdempotentAction : Type 0 where
  offer_create offer_update offer_ready offer_void : IdempotentAction

abbrev pub action_tag : IdempotentAction → ℕ
action_tag IdempotentAction.offer_create = 0
action_tag IdempotentAction.offer_update = 1
action_tag IdempotentAction.offer_ready = 2
action_tag IdempotentAction.offer_void = 3

pub record IdempotencyKey : Type 0 where
  pub actor_id : ℕ
  pub action : IdempotentAction
  pub scope_id : ℕ
  pub key : Text
  pub request_hash : Text
