-- ===== src/Models/Screenings.antt =====
-- `ScreeningDecision` (backend/app/models/resume.py) and the columns of `AiResult` that a screening
-- reads.
use ai_recruitment.Common.{ℕ, Bool, Option}
use ai_recruitment.Common.Text.{Text}
use ai_recruitment.Models.Applications.{PipelineStatus}

-- `SCREENING_DECISIONS`; `unlisted_screening` is any other string.
pub data ScreeningChoice : Type 0 where
  screening_enter_interview screening_hold screening_reject : ScreeningChoice
  screening_talent_pool : ScreeningChoice
  unlisted_screening : Text → ScreeningChoice

pub record ScreeningDecision : Type 0 where
  pub application_id : ℕ
  pub decision : ScreeningChoice
  pub reason_code : Option Text
  pub reason : Option Text
  pub from_pipeline_status : PipelineStatus
  pub to_pipeline_status : PipelineStatus
  pub decided_by : Option ℕ
  pub ai_result_id : Option ℕ
  pub idempotency_key : Option Text
  pub created_at : ℕ

pub record AiResult : Type 0 where
  pub application_id : ℕ
  -- whether `result_type` is `RESUME_SCORE`
  pub is_score : Bool
  pub is_current : Bool
  pub created_at : ℕ
