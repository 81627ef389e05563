-- ===== src/Models/Decisions.antt =====
-- `HiringDecision` and its catalog of reasons (backend/app/models/resume.py), and the rows of an
-- interview round's analysis that a decision refers to.
use ai_recruitment.Common.{ℕ, Bool, true, false, Option}
use ai_recruitment.Common.Text.{Text, codes}
use ai_recruitment.Models.Applications.{PipelineStatus}

-- `HIRING_DECISIONS`; `unlisted` is any other string of a request.
pub data Decision : Type 0 where
  recommend_hire reject hold : Decision
  unlisted : Text → Decision

abbrev pub is_recommend_hire : Decision → Bool
is_recommend_hire Decision.recommend_hire = true
is_recommend_hire _ = false

abbrev pub is_reject : Decision → Bool
is_reject Decision.reject = true
is_reject _ = false

-- `HIRING_REASON_CODES`; `unlisted` is any other string of a request.
pub data Reason : Type 0 where
  meets_role_bar strong_round_evidence hire_other : Reason
  skill_gap experience_insufficient communication_insufficient : Reason
  incomplete_or_weak_evidence reject_other : Reason
  need_another_round need_more_evidence awaiting_stakeholder hold_other : Reason
  unlisted : Text → Reason

-- The string that a reason is stored as.
abbrev pub reason_code : Reason → Text
reason_code Reason.meets_role_bar = codes "meets_role_bar"
reason_code Reason.strong_round_evidence = codes "strong_round_evidence"
reason_code Reason.hire_other = codes "hire_other"
reason_code Reason.skill_gap = codes "skill_gap"
reason_code Reason.experience_insufficient = codes "experience_insufficient"
reason_code Reason.communication_insufficient = codes "communication_insufficient"
reason_code Reason.incomplete_or_weak_evidence = codes "incomplete_or_weak_evidence"
reason_code Reason.reject_other = codes "reject_other"
reason_code Reason.need_another_round = codes "need_another_round"
reason_code Reason.need_more_evidence = codes "need_more_evidence"
reason_code Reason.awaiting_stakeholder = codes "awaiting_stakeholder"
reason_code Reason.hold_other = codes "hold_other"
reason_code (Reason.unlisted s) = s

pub record HiringDecision : Type 0 where
  pub application_id : ℕ
  pub decision : Decision
  pub reason : Reason
  pub round_id : ℕ
  pub analysis_version_id : ℕ
  -- a float that is only copied
  pub overall_score : Option ℕ
  pub analysis_version_no : ℕ
  pub transcript_version_id : ℕ
  pub job_version_id : ℕ
  pub from_pipeline_status : PipelineStatus
  pub to_pipeline_status : PipelineStatus
  pub decided_by : Option ℕ
  pub idempotency_key : Option Text
  pub created_at : ℕ

pub record StatusLog : Type 0 where
  pub application_id : ℕ
  pub from_status : PipelineStatus
  pub to_status : PipelineStatus
  pub reason : Option Text
  pub actor_id : ℕ

-- `InterviewRoundAnalysisVersion`
pub record AnalysisVersion : Type 0 where
  pub analysis_id : ℕ
  pub version_no : ℕ
  pub overall_score : Option ℕ
  pub transcript_version_id : ℕ
  pub job_version_id : ℕ

pub record Analysis : Type 0 where
  pub interview_round_id : ℕ
  pub current_version_id : Option ℕ

pub record Round : Type 0 where
  pub application_id : ℕ

pub record Transcript : Type 0 where
  pub round_id : ℕ
  pub current_confirmed_version_id : Option ℕ
