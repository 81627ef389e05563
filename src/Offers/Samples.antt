-- ===== src/Offers/Samples.antt =====
-- Rows that the tests of the offer modules run on.
use mathlib.Core.List.{reverse}
use ai_recruitment.Common.{none, some, [], ◌∷◌, ◌++◌, true}
use ai_recruitment.Common.Text.{codes}
use ai_recruitment.Crypto.{Fernet}
use ai_recruitment.Models.{
  Db, Application, ApplicationStatus, PipelineStatus, Offer, OfferStatus, OfferVersion,
  OfferSendAttempt, AttemptStatus,
}
use ai_recruitment.Offers.Base.{External, Request}

abbrev pub mirror : Fernet
mirror = record { encrypt = λ s. reverse s; decrypt = λ s. some (reverse s) }

abbrev pub libraries : External
libraries = record {
  fernet = some mirror;
  content_hash = λ s h t. s ++ h ++ t;
  request_hash = λ p. codes "hash";
}

abbrev pub officer : Request
officer = record { actor = 9; now = 1000 }

abbrev pub application : Application
application = record {
  candidate = some (record { name = codes "Lin"; email = some (codes "lin@mail.example") });
  status = ApplicationStatus.in_progress;
  pipeline_status = PipelineStatus.pending_offer;
  lock_version = 4;
  close_action = none;
  close_reason = none;
  interview_started = true;
  updated_at = 900;
}

abbrev pub ready_row : Offer
ready_row = record {
  application_id = 7;
  hiring_decision_id = 5;
  status = OfferStatus.ready;
  current_version_id = some 30;
  recipient_email_masked = some (codes "l***@mail.example");
  recipient_name = codes "Lin";
  lock_version = 3;
  created_by = 9;
  updated_by = 9;
  created_at = 910;
  updated_at = 920;
  voided_at = none;
  void_reason_code = none;
}

abbrev pub version_row : OfferVersion
version_row = record {
  offer_id = 20;
  version_no = 1;
  subject_encrypted = codes "enc:v1:iH";
  body_html_encrypted = codes "enc:v1:";
  body_text_encrypted = codes "enc:v1:";
  content_hash = codes "Hi";
  template_code = codes "offer_console_v1";
  template_version = codes "1";
  frozen = true;
  created_by = 9;
  created_at = 910;
}

abbrev pub ready_db : Db
ready_db = record {
  applications = (7, application) ∷ [];
  hiring_decisions = [];
  screening_decisions = [];
  ai_results = [];
  status_logs = [];
  analysis_versions = [];
  analyses = [];
  rounds = [];
  transcripts = [];
  offers = (20, ready_row) ∷ [];
  offer_versions = (30, version_row) ∷ [];
  send_attempts = [];
  idempotency_keys = [];
  audit_logs = [];
  mail_queue = [];
}

abbrev pub running_row : OfferSendAttempt
running_row = record {
  offer_id = 20;
  offer_version_id = 30;
  status = AttemptStatus.running;
  attempt_no = 1;
  idempotency_key = codes "k1";
  error_code = none;
  error_message_safe = none;
  started_at = some 1001;
  finished_at = none;
  next_retry_at = none;
  created_by = some 9;
  created_at = 1000;
}
