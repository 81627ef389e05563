-- ===== src/Hiring.antt =====
-- Hiring decisions after the interviews: backend/app/services/hiring_decisions.py behind its checks.
pub mod Effects
pub mod Promises
pub mod History
pub mod Gate
mod Tests
use ai_recruitment.Common.{
  ℕ, ◌+◌, true, Option, none, some, [], ◌∷◌, ◌++◌, if◌then◌else◌, ok, err, pure, raise, gets,
  or_raise, modify, ◌>>=◌, ◌>>◌,
}
use ai_recruitment.Common.Text.{Text, codes}
use ai_recruitment.Common.Table.{lookup, put}
use ai_recruitment.Models.{
  Application, ApplicationStatus, PipelineStatus, reason_code, HiringDecision, AuditAction, Change,
  is_reject, reject,
}
use ai_recruitment.Offers.Base.{Request, given}
use ai_recruitment.HiringRules.{
  HiringError, Deciding, HiringRequest, HiringResult, find_hiring_by_idempotency,
  add_hiring_decision, Plan, decidable, lock_conflict,
}

unfoldable pub decision_row : Request → ℕ → HiringRequest → Plan → HiringDecision
decision_row c application_id payload plan = record {
  application_id = application_id;
  decision = payload.decision;
  reason = payload.reason;
  round_id = plan.round_id;
  analysis_version_id = payload.analysis_version_id;
  overall_score = plan.version.overall_score;
  analysis_version_no = plan.version.version_no;
  transcript_version_id = plan.version.transcript_version_id;
  job_version_id = plan.version.job_version_id;
  from_pipeline_status = PipelineStatus.interviewing;
  to_pipeline_status = plan.to_status;
  decided_by = some c.actor;
  idempotency_key = payload.idempotency_key;
  created_at = c.now;
}

-- The application behind a decision; a rejection closes it.
unfoldable pub decided_application : Request → HiringRequest → Plan → Application → Application
decided_application c payload plan application = record application {
  pipeline_status = plan.to_status;
  lock_version = application.lock_version + 1;
  updated_at = c.now;
  status = if is_reject payload.decision then ApplicationStatus.rejected else application.status;
  close_action =
      if is_reject payload.decision then some (codes "reject") else application.close_action;
  close_reason =
      if is_reject payload.decision
      then some (reason_code payload.reason)
      else application.close_reason;
}

-- The writes of `create_hiring_decision`, under its `try`.
unfoldable pub write_decision :
    Request → ℕ → ℕ → Application → HiringRequest → Plan → Deciding HiringResult
unfolding decision_row decided_application
write_decision c application_id decision_id application payload plan = do
  let row = decision_row c application_id payload plan
  add_hiring_decision decision_id row
  let application' = decided_application c payload plan application
  modify λ db. record db { applications = put application_id application' db.applications }
  modify λ db. record db {
    status_logs =
        db.status_logs
        ++ record {
          application_id = application_id;
          from_status = PipelineStatus.interviewing;
          to_status = plan.to_status;
          reason = some (reason_code payload.reason);
          actor_id = c.actor;
        }
          ∷ [];
  }
  modify λ db. record db {
    audit_logs =
        db.audit_logs
        ++ record {
          action = AuditAction.application_hiring_decision;
          success = true;
          actor_user_id = some c.actor;
          resource_id = application_id;
          changes =
              Change.decision payload.decision
              ∷ Change.reason payload.reason
              ∷ Change.from_pipeline PipelineStatus.interviewing
              ∷ Change.to_pipeline plan.to_status
              ∷ Change.lock_version application'.lock_version
              ∷ Change.analysis_version_id payload.analysis_version_id
              ∷ Change.round_id plan.round_id
              ∷ Change.overall_score plan.version.overall_score
              ∷ Change.idempotency_key payload.idempotency_key
              ∷ [];
        }
          ∷ [];
  }
  pure (record { id = decision_id; row = row; lock_version = application'.lock_version })

-- `_recover_idempotent_decision`, at a key that is given
recover : ℕ → Option (ℕ × HiringDecision) → Deciding HiringResult
recover application_id none = raise lock_conflict
recover application_id (some (id, d)) = do
  application ←
      or_raise (← gets (λ db. lookup application_id db.applications))
        HiringError.application_not_found
  pure (record { id = id; row = d; lock_version = application.lock_version })

-- `except IntegrityError`, over the database that the rollback restores
recover_from : ℕ → Option Text → HiringError → Deciding HiringResult
unfolding recover
recover_from application_id none HiringError.integrity_error = raise lock_conflict
recover_from application_id (some key) HiringError.integrity_error = do
  existing ← gets (find_hiring_by_idempotency application_id (some key))
  recover application_id existing
recover_from application_id key e = raise e

unfoldable pub on_integrity_error : ℕ → Option Text → Deciding HiringResult → Deciding HiringResult
unfolding recover_from
on_integrity_error application_id key m db = elim (m db) [
  | ok r ↦ ok r
  | err e ↦ recover_from application_id key e db
]

unfoldable pub decide_after :
    Request
    → ℕ
    → ℕ
    → Application
    → HiringRequest
    → Option (ℕ × HiringDecision)
    → Deciding HiringResult
decide_after c application_id decision_id application payload (some (id, d)) =
    pure (record { id = id; row = d; lock_version = application.lock_version })
decide_after c application_id decision_id application payload none = do
  plan ← decidable application_id application payload
  on_integrity_error application_id (given payload.idempotency_key)
      (write_decision c application_id decision_id application payload plan)

-- `create_hiring_decision`, with the key that `uuid4` makes
unfoldable pub create_hiring_decision : Request → ℕ → ℕ → HiringRequest → Deciding HiringResult
create_hiring_decision c application_id decision_id payload = do
  application ←
      or_raise (← gets (λ db. lookup application_id db.applications))
        HiringError.application_not_found
  existing ← gets (find_hiring_by_idempotency application_id (given payload.idempotency_key))
  decide_after c application_id decision_id application payload existing
