-- ===== src/Screening/Writes.antt =====
-- The writes of a screening decision, and the whole of `create_screening_decision`
-- (backend/app/services/resumes.py).
use ai_recruitment.Common.{
  ℕ, ◌+◌, Bool, true, Option, none, some, [], ◌∷◌, ◌++◌, if◌then◌else◌, pure, gets, or_raise,
  modify, ◌>>=◌, ◌>>◌,
}
use ai_recruitment.Common.Text.{Text, codes, is_empty}
use ai_recruitment.Common.Table.{lookup, put}
use ai_recruitment.Models.{
  Application, ApplicationStatus, PipelineStatus, ScreeningChoice, ScreeningDecision, AiResult,
  AuditAction, Change,
}
use ai_recruitment.Offers.Base.{Request}
use ai_recruitment.Screening.{
  ScreeningError, Screening, ScreeningRequest, ScreeningRead, current_score, add_screening_decision,
  read_screening,
}

-- The status column of an update: a value that is not new is left out of it.
unfoldable pub moved : (from to now : PipelineStatus) → PipelineStatus
moved PipelineStatus.interviewing PipelineStatus.interviewing now = now
moved PipelineStatus.pending_hr_screen PipelineStatus.pending_hr_screen now = now
moved from to now = to

-- `payload.reason or "talent_pool"`
unfoldable pub reason_or : Option Text → Text
reason_or none = codes "talent_pool"
reason_or (some s) = if is_empty s then codes "talent_pool" else s

unfoldable pub closed_status : ScreeningChoice → ApplicationStatus → ApplicationStatus
closed_status ScreeningChoice.screening_reject s = ApplicationStatus.rejected
closed_status ScreeningChoice.screening_talent_pool s = ApplicationStatus.terminated
closed_status _ s = s

unfoldable pub closed_action : ScreeningChoice → Option Text → Option Text
closed_action ScreeningChoice.screening_reject a = some (codes "reject")
closed_action ScreeningChoice.screening_talent_pool a = some (codes "terminate")
closed_action _ a = a

unfoldable pub closed_reason : ScreeningRequest → ScreeningChoice → Option Text → Option Text
unfolding reason_or
closed_reason payload ScreeningChoice.screening_reject r = payload.reason
closed_reason payload ScreeningChoice.screening_talent_pool r = some (reason_or payload.reason)
closed_reason payload _ r = r

unfoldable pub starts_interviews : ScreeningChoice → Bool → Bool
starts_interviews ScreeningChoice.screening_enter_interview b = true
starts_interviews _ b = b

-- The row of an application after the update, from what the call has read and the row as it is.
unfoldable pub screened_application :
    Request → ScreeningRequest → ScreeningRead → Application → Application
unfolding moved closed_status closed_action closed_reason starts_interviews
screened_application c payload read row = record row {
  pipeline_status = moved read.application.pipeline_status read.to_status row.pipeline_status;
  lock_version = read.application.lock_version + 1;
  updated_at = c.now;
  interview_started = starts_interviews payload.decision row.interview_started;
  status = closed_status payload.decision row.status;
  close_action = closed_action payload.decision row.close_action;
  close_reason = closed_reason payload payload.decision row.close_reason;
}

unfoldable pub screening_row :
    Request → ℕ → ScreeningRequest → ScreeningRead → Option ℕ → ScreeningDecision
screening_row c application_id payload read score_id = record {
  application_id = application_id;
  decision = payload.decision;
  reason_code = payload.reason_code;
  reason = payload.reason;
  from_pipeline_status = read.application.pipeline_status;
  to_pipeline_status = read.to_status;
  decided_by = some c.actor;
  ai_result_id = score_id;
  idempotency_key = payload.idempotency_key;
  created_at = c.now;
}

-- `ScreeningDecisionOut`: the decision's row with its key, and a lock version.
pub record ScreeningResult : Type 0 where
  pub id : ℕ
  pub row : ScreeningDecision
  pub lock_version : ℕ

-- The entries of the status log and of the audit log.
unfoldable pub log_screening :
    Request → ℕ → ScreeningRequest → ScreeningRead → Option ℕ → Screening (Unit {0})
log_screening c application_id payload read score_id = modify λ db. record db {
  status_logs =
      db.status_logs
      ++ record {
        application_id = application_id;
        from_status = read.application.pipeline_status;
        to_status = read.to_status;
        reason = payload.reason;
        actor_id = c.actor;
      }
        ∷ [];
  audit_logs =
      db.audit_logs
      ++ record {
        action = AuditAction.application_screening_decision;
        success = true;
        actor_user_id = some c.actor;
        resource_id = application_id;
        changes =
            Change.screening_decision payload.decision
            ∷ Change.screening_reason payload.reason_code
            ∷ Change.from_pipeline read.application.pipeline_status
            ∷ Change.to_pipeline read.to_status
            ∷ Change.lock_version (read.application.lock_version + 1)
            ∷ Change.score_result_id score_id
            ∷ Change.idempotency_key payload.idempotency_key
            ∷ [];
      }
        ∷ [];
}

unfoldable pub id_of : Option (ℕ × AiResult) → Option ℕ
id_of none = none
id_of (some q) = some q.0

-- The writes of a decision whose key is new.
unfoldable pub add_screening :
    Request → ℕ → ℕ → ScreeningRequest → ScreeningRead → Screening ScreeningResult
unfolding screened_application screening_row log_screening id_of current_score
    add_screening_decision
add_screening c application_id decision_id payload read = do
  score ← gets (λ db. id_of (current_score application_id db.ai_results))
  let row = screening_row c application_id payload read score
  add_screening_decision decision_id row
  application ←
      or_raise (← gets (λ db. lookup application_id db.applications))
        ScreeningError.screening_integrity
  let application' = screened_application c payload read application
  modify λ db. record db { applications = put application_id application' db.applications }
  log_screening c application_id payload read score
  pure (record { id = decision_id; row = row; lock_version = read.application.lock_version + 1 })

-- `create_screening_decision` from the look at its key on.
unfoldable pub write_screening_after :
    Request
    → ℕ
    → ℕ
    → ScreeningRequest
    → ScreeningRead
    → Option (ℕ × ScreeningDecision)
    → Screening ScreeningResult
unfolding add_screening
write_screening_after c application_id decision_id payload read none =
    add_screening c application_id decision_id payload read
write_screening_after c application_id decision_id payload read (some (id, d)) =
    pure (record { id = id; row = d; lock_version = read.application.lock_version })

unfoldable pub write_screening :
    Request → ℕ → ℕ → ScreeningRequest → ScreeningRead → Screening ScreeningResult
unfolding write_screening_after
write_screening c application_id decision_id payload read =
    write_screening_after c application_id decision_id payload read read.existing

-- `create_screening_decision`, with the key that `uuid4` makes, when no other transaction commits in
-- between.
unfoldable pub create_screening_decision :
    Request → ℕ → ℕ → ScreeningRequest → Screening ScreeningResult
unfolding read_screening write_screening
create_screening_decision c application_id decision_id payload = do
  read ← read_screening application_id payload
  write_screening c application_id decision_id payload read
