-- ===== src/Screening.antt =====
-- Screening decisions: `create_screening_decision` of backend/app/services/resumes.py, with
-- `validate_screening_payload` of backend/app/services/score_validation.py and the queries of
-- backend/app/repositories/resumes.py. The call reads its application without a lock, so it is cut
-- into the part that reads, and the part that writes and commits.
pub mod Writes
pub mod Promises
mod Tests
use ai_recruitment.Common.{
  ℕ, ◌+◌, Bool, true, false, not, ◌&&◌, Option, none, some, List, [], ◌∷◌, ◌++◌, ◌==◌, leb, any,
  is_some, if◌then◌else◌, Session, pure, gets, or_raise, raise_if, modify, ◌>>=◌, ◌>>◌,
}
use ai_recruitment.Common.Text.{Text, codes, text_eq, is_empty, strip}
use ai_recruitment.Common.Table.{Table, lookup, put, find_row}
use ai_recruitment.Models.{
  Db, Application, ApplicationStatus, PipelineStatus, ScreeningChoice, ScreeningDecision, AiResult,
  AuditAction, Change, is_in_progress, screening_reject, screening_talent_pool,
  screening_enter_interview,
}
use ai_recruitment.Offers.Base.{Request, given}

-- The exceptions, by message; `screening_integrity` is the database's.
pub data ScreeningError : Type 0 where
  -- `ResumeNotFoundError`, `ConflictError`
  no_application updated_by_another : ScreeningError
  -- `ResumeStateError`
  closed_application terminal_application : ScreeningError
  -- `ResumeValidationError`
  invalid_choice reason_code_required unknown_reason_code reason_required : ScreeningError
  screening_integrity : ScreeningError

abbrev pub Screening : Type 0 → Type 0
Screening A = Session ScreeningError Db A

-- `ScreeningDecisionRequest`
pub record ScreeningRequest : Type 0 where
  pub decision : ScreeningChoice
  pub reason_code : Option Text
  pub reason : Option Text
  pub lock_version : ℕ
  pub idempotency_key : Option Text

-- `_DECISION_TO_PIPELINE`
unfoldable pub screening_pipeline : ScreeningChoice → Option PipelineStatus
screening_pipeline ScreeningChoice.screening_enter_interview = some PipelineStatus.interviewing
screening_pipeline ScreeningChoice.screening_hold = some PipelineStatus.pending_hr_screen
screening_pipeline ScreeningChoice.screening_reject = some PipelineStatus.rejected
screening_pipeline ScreeningChoice.screening_talent_pool = some PipelineStatus.talent_pool
screening_pipeline (ScreeningChoice.unlisted_screening s) = none

-- The pipeline statuses that are not screened again.
unfoldable pub is_past_screening : PipelineStatus → Bool
is_past_screening PipelineStatus.rejected = true
is_past_screening PipelineStatus.talent_pool = true
is_past_screening PipelineStatus.pending_offer = true
is_past_screening _ = false

-- `SCREENING_REASON_REQUIRED_DECISIONS`
unfoldable pub requires_reason : ScreeningChoice → Bool
requires_reason ScreeningChoice.screening_reject = true
requires_reason ScreeningChoice.screening_talent_pool = true
requires_reason _ = false

abbrev pub screening_reason_codes : List Text
screening_reason_codes =
    codes "must_have_mismatch"
    ∷ codes "core_experience_insufficient"
    ∷ codes "skill_mismatch"
    ∷ codes "project_experience_insufficient"
    ∷ codes "location_or_start_mismatch"
    ∷ codes "salary_mismatch"
    ∷ codes "information_insufficient"
    ∷ codes "other"
    ∷ []

-- `(s or "").strip() or None`
unfoldable pub stripped : Option Text → Option Text
stripped none = none
stripped (some s) = if is_empty (strip s) then none else some (strip s)

unfoldable pub is_listed_code : Option Text → Bool
is_listed_code none = true
is_listed_code (some code) = any (text_eq code) screening_reason_codes

unfoldable pub is_other : Option Text → Bool
is_other none = false
is_other (some code) = text_eq code (codes "other")

-- `validate_screening_payload`
unfoldable pub validate_screening_payload : ScreeningRequest → Screening (Unit {0})
unfolding requires_reason stripped is_listed_code is_other
validate_screening_payload payload = do
  raise_if (requires_reason payload.decision && not (is_some (stripped payload.reason_code)))
      ScreeningError.reason_code_required
  raise_if (not (is_listed_code (stripped payload.reason_code))) ScreeningError.unknown_reason_code
  raise_if (is_other (stripped payload.reason_code) && not (is_some (stripped payload.reason)))
      ScreeningError.reason_required

unfoldable pub screening_key : ℕ → Text → ScreeningDecision → Bool
screening_key application_id key d =
    d.application_id == application_id
    && elim d.idempotency_key [ none ↦ false | some k ↦ text_eq k key ]

-- `find_screening_by_idempotency`
unfoldable pub find_screening_by_idempotency : ℕ → Option Text → Db → Option (ℕ × ScreeningDecision)
unfolding screening_key
find_screening_by_idempotency application_id none db = none
find_screening_by_idempotency application_id (some key) db =
    find_row (screening_key application_id key) db.screening_decisions

-- `get_current_ai_result`, of scores: the newest of those that match
unfoldable pub current_score : ℕ → Table AiResult → Option (ℕ × AiResult)
current_score application_id [] = none
current_score application_id ((id, r) ∷ t) =
    let rest = current_score application_id t in
    if r.application_id == application_id && r.is_score && r.is_current
    then elim rest [
      | none ↦ some (id, r)
      | some q ↦ (if leb q.1.created_at r.created_at then some (id, r) else some q)
    ]
    else rest

-- `add_screening_decision`, under the unique index on the application and a key that is not null
unfoldable pub add_screening_decision : ℕ → ScreeningDecision → Screening (Unit {0})
unfolding find_screening_by_idempotency
add_screening_decision id d = do
  raise_if (← gets (λ db. is_some (lookup id db.screening_decisions)))
      ScreeningError.screening_integrity
  raise_if
      (← gets (λ db. is_some (find_screening_by_idempotency d.application_id d.idempotency_key db)))
      ScreeningError.screening_integrity
  modify λ db. record db { screening_decisions = put id d db.screening_decisions }

-- What the call has read: the application, the status to move to, and the decision of its key.
pub record ScreeningRead : Type 0 where
  pub application : Application
  pub to_status : PipelineStatus
  pub existing : Option (ℕ × ScreeningDecision)

-- `create_screening_decision` up to the look at its key.
unfoldable pub read_screening : ℕ → ScreeningRequest → Screening ScreeningRead
unfolding is_past_screening screening_pipeline validate_screening_payload
read_screening application_id payload = do
  application ←
      or_raise (← gets (λ db. lookup application_id db.applications)) ScreeningError.no_application
  raise_if (not (application.lock_version == payload.lock_version))
      ScreeningError.updated_by_another
  raise_if (not (is_in_progress application.status)) ScreeningError.closed_application
  raise_if (is_past_screening application.pipeline_status) ScreeningError.terminal_application
  to_status ← or_raise (screening_pipeline payload.decision) ScreeningError.invalid_choice
  validate_screening_payload payload
  existing ← gets (find_screening_by_idempotency application_id (given payload.idempotency_key))
  pure (record { application = application; to_status = to_status; existing = existing })
