-- ===== src/Models/Applications.antt =====
-- backend/app/models/candidate.py and the pipeline constants of backend/app/models/resume.py.
use ai_recruitment.Common.{ℕ, Bool, true, false, Option}
use ai_recruitment.Common.Text.{Text}

pub data ApplicationStatus : Type 0 where
  in_progress rejected transferred terminated hired : ApplicationStatus

abbrev pub is_in_progress : ApplicationStatus → Bool
is_in_progress ApplicationStatus.in_progress = true
is_in_progress _ = false

pub data PipelineStatus : Type 0 where
  pending_parse pending_hr_screen interviewing pending_offer : PipelineStatus
  rejected talent_pool : PipelineStatus

abbrev pub is_interviewing : PipelineStatus → Bool
is_interviewing PipelineStatus.interviewing = true
is_interviewing _ = false

abbrev pub is_pending_offer : PipelineStatus → Bool
is_pending_offer PipelineStatus.pending_offer = true
is_pending_offer _ = false

pub record Candidate : Type 0 where
  pub name : Text
  pub email : Option Text

-- `JobApplication`, with the columns that the modelled services read or write.
pub record Application : Type 0 where
  pub candidate : Option Candidate
  pub status : ApplicationStatus
  pub pipeline_status : PipelineStatus
  pub lock_version : ℕ
  pub close_action : Option Text
  pub close_reason : Option Text
  pub interview_started : Bool
  pub updated_at : ℕ
