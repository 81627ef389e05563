-- ===== src/Models/OfferRows.antt =====
-- backend/app/models/offer.py: offers, their versions and their send attempts.
use ai_recruitment.Common.{ℕ, Bool, true, false, Option}
use ai_recruitment.Common.Text.{Text, codes}

pub data OfferStatus : Type 0 where
  draft ready sending sent failed voided : OfferStatus

abbrev pub is_draft : OfferStatus → Bool
is_draft OfferStatus.draft = true
is_draft _ = false

abbrev pub is_ready : OfferStatus → Bool
is_ready OfferStatus.ready = true
is_ready _ = false

abbrev pub is_sending : OfferStatus → Bool
is_sending OfferStatus.sending = true
is_sending _ = false

abbrev pub is_sent : OfferStatus → Bool
is_sent OfferStatus.sent = true
is_sent _ = false

abbrev pub is_failed : OfferStatus → Bool
is_failed OfferStatus.failed = true
is_failed _ = false

abbrev pub is_voided : OfferStatus → Bool
is_voided OfferStatus.voided = true
is_voided _ = false

pub data AttemptStatus : Type 0 where
  pending running succeeded failed dead : AttemptStatus

abbrev pub is_pending : AttemptStatus → Bool
is_pending AttemptStatus.pending = true
is_pending _ = false

abbrev pub is_running : AttemptStatus → Bool
is_running AttemptStatus.running = true
is_running _ = false

abbrev pub is_succeeded : AttemptStatus → Bool
is_succeeded AttemptStatus.succeeded = true
is_succeeded _ = false

-- One first attempt and three automatic retries.
abbrev pub mail_max_auto_attempts : ℕ
mail_max_auto_attempts = 4

abbrev pub offer_template_code : Text
offer_template_code = codes "offer_console_v1"

abbrev pub offer_template_version : Text
offer_template_version = codes "1"

pub record Offer : Type 0 where
  pub application_id : ℕ
  pub hiring_decision_id : ℕ
  pub status : OfferStatus
  pub current_version_id : Option ℕ
  pub recipient_email_masked : Option Text
  pub recipient_name : Text
  pub lock_version : ℕ
  pub created_by : ℕ
  pub updated_by : ℕ
  pub created_at : ℕ
  pub updated_at : ℕ
  pub voided_at : Option ℕ
  pub void_reason_code : Option Text

pub record OfferVersion : Type 0 where
  pub offer_id : ℕ
  pub version_no : ℕ
  pub subject_encrypted : Text
  pub body_html_encrypted : Text
  pub body_text_encrypted : Text
  pub content_hash : Text
  pub template_code : Text
  pub template_version : Text
  pub frozen : Bool
  pub created_by : ℕ
  pub created_at : ℕ

-- `provider` is always `MAIL_PROVIDER_CONSOLE` and has no field.
pub record OfferSendAttempt : Type 0 where
  pub offer_id : ℕ
  pub offer_version_id : ℕ
  pub status : AttemptStatus
  pub attempt_no : ℕ
  pub idempotency_key : Text
  pub error_code : Option Text
  pub error_message_safe : Option Text
  pub started_at : Option ℕ
  pub finished_at : Option ℕ
  pub next_retry_at : Option ℕ
  pub created_by : Option ℕ
  pub created_at : ℕ
