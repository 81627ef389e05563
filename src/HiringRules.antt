-- ===== src/HiringRules.antt =====
-- The checks of backend/app/services/hiring_decisions.py, and the queries of
-- backend/app/repositories/hiring_decisions.py.
use ai_recruitment.Common.{
  ℕ, Bool, true, false, not, ◌&&◌, Option, none, some, ◌==◌, is_some, option_eq, if◌then◌else◌,
  Result, ok, err, Session, pure, raise, gets, or_raise, raise_if, modify, ◌>>=◌, ◌>>◌,
}
use ai_recruitment.Common.Text.{Text, text_eq}
use ai_recruitment.Common.Table.{lookup, put, find_row}
use ai_recruitment.Models.{
  Db, Application, PipelineStatus, Decision, Reason, HiringDecision, AnalysisVersion, Transcript,
  is_in_progress, is_interviewing, recommend_hire, reject, hold,
}

-- The exceptions, by message; `integrity_error` is the database's, and is caught.
pub data HiringError : Type 0 where
  -- `HiringNotFoundError`
  application_not_found version_not_found analysis_not_found round_not_found : HiringError
  -- `HiringStateError`
  application_closed not_interviewing version_not_current version_stale : HiringError
  -- `HiringValidationError`
  invalid_decision invalid_reason foreign_version : HiringError
  -- `HiringConflictError`
  lock_conflict : HiringError
  integrity_error : HiringError

abbrev pub Deciding : Type 0 → Type 0
Deciding A = Session HiringError Db A

-- `HiringDecisionRequestData`
pub record HiringRequest : Type 0 where
  pub decision : Decision
  pub reason : Reason
  pub analysis_version_id : ℕ
  pub lock_version : ℕ
  pub idempotency_key : Option Text

-- `HiringDecisionResult`: the decision's row with its key, and a lock version.
pub record HiringResult : Type 0 where
  pub id : ℕ
  pub row : HiringDecision
  pub lock_version : ℕ

-- `_DECISION_TO_PIPELINE`, and `decision not in HIRING_DECISIONS`
unfoldable pub decision_to_pipeline : Decision → Option PipelineStatus
decision_to_pipeline Decision.recommend_hire = some PipelineStatus.pending_offer
decision_to_pipeline Decision.reject = some PipelineStatus.rejected
decision_to_pipeline Decision.hold = some PipelineStatus.interviewing
decision_to_pipeline (Decision.unlisted s) = none

-- `_REASON_ALLOWED.get(reason_code)`: the catalog has one decision for every reason.
unfoldable pub reason_allowed : Reason → Option Decision
reason_allowed Reason.meets_role_bar = some recommend_hire
reason_allowed Reason.strong_round_evidence = some recommend_hire
reason_allowed Reason.hire_other = some recommend_hire
reason_allowed Reason.skill_gap = some reject
reason_allowed Reason.experience_insufficient = some reject
reason_allowed Reason.communication_insufficient = some reject
reason_allowed Reason.incomplete_or_weak_evidence = some reject
reason_allowed Reason.reject_other = some reject
reason_allowed Reason.need_another_round = some hold
reason_allowed Reason.need_more_evidence = some hold
reason_allowed Reason.awaiting_stakeholder = some hold
reason_allowed Reason.hold_other = some hold
reason_allowed (Reason.unlisted s) = none

-- `decision in allowed`
unfoldable pub allows : Option Decision → Decision → Bool
allows (some Decision.recommend_hire) Decision.recommend_hire = true
allows (some Decision.reject) Decision.reject = true
allows (some Decision.hold) Decision.hold = true
allows _ _ = false

-- `_validate_reason`, with the pipeline status that the decision leads to
unfoldable pub validate_reason : Decision → Reason → Result HiringError PipelineStatus
unfolding decision_to_pipeline reason_allowed allows
validate_reason decision reason = elim (decision_to_pipeline decision) [
  | none ↦ err invalid_decision
  | some to_status ↦
      (if allows (reason_allowed reason) decision then ok to_status else err invalid_reason)
]

-- `find_hiring_by_idempotency`
unfoldable pub same_key : ℕ → Text → HiringDecision → Bool
same_key application_id key d =
    d.application_id == application_id
    && elim d.idempotency_key [ none ↦ false | some k ↦ text_eq k key ]

unfoldable pub find_hiring_by_idempotency : ℕ → Option Text → Db → Option (ℕ × HiringDecision)
unfolding same_key
find_hiring_by_idempotency application_id none db = none
find_hiring_by_idempotency application_id (some key) db =
    find_row (same_key application_id key) db.hiring_decisions

-- `add_hiring_decision`, under the unique index on the application and a key that is not null
unfoldable pub add_hiring_decision : ℕ → HiringDecision → Deciding (Unit {0})
unfolding find_hiring_by_idempotency
add_hiring_decision id d = do
  raise_if (← gets (λ db. is_some (lookup id db.hiring_decisions))) HiringError.integrity_error
  raise_if
      (← gets (λ db. is_some (find_hiring_by_idempotency d.application_id d.idempotency_key db)))
      HiringError.integrity_error
  modify λ db. record db { hiring_decisions = put id d db.hiring_decisions }

-- `get_transcript_by_round_id`
find_transcript : ℕ → Db → Option Transcript
find_transcript round_id db =
    elim (find_row (λ t. Transcript.round_id t == round_id) db.transcripts) [
      | none ↦ none
      | some p ↦ some p.1
    ]

-- `is_analysis_version_stale` of backend/app/services/interview_analyses.py
unfoldable pub is_stale : AnalysisVersion → Option Transcript → Bool
is_stale v none = true
is_stale v (some t) = not (option_eq t.current_confirmed_version_id (some v.transcript_version_id))

-- What the checks of `create_hiring_decision` have found.
pub record Plan : Type 0 where
  pub version : AnalysisVersion
  pub round_id : ℕ
  pub to_status : PipelineStatus

lift : {A : Type 0} → Result HiringError A → Deciding A
lift (ok a) = pure a
lift (err e) = raise e

-- The checks of `create_hiring_decision` behind the replay: on the application and the request,
unfoldable pub admissible : Application → HiringRequest → Deciding PipelineStatus
unfolding validate_reason lift
admissible application payload = do
  raise_if (not (application.lock_version == payload.lock_version)) HiringError.lock_conflict
  raise_if (not (is_in_progress application.status)) HiringError.application_closed
  raise_if (not (is_interviewing application.pipeline_status)) HiringError.not_interviewing
  lift (validate_reason payload.decision payload.reason)

-- and on the analysis that the decision rests on.
unfoldable pub evidence : ℕ → ℕ → PipelineStatus → Deciding Plan
unfolding find_transcript is_stale
evidence application_id version_id to_status = do
  version ←
      or_raise (← gets (λ db. lookup version_id db.analysis_versions)) HiringError.version_not_found
  analysis ←
      or_raise (← gets (λ db. lookup version.analysis_id db.analyses))
        HiringError.analysis_not_found
  round ←
      or_raise (← gets (λ db. lookup analysis.interview_round_id db.rounds))
        HiringError.round_not_found
  raise_if (not (round.application_id == application_id)) HiringError.foreign_version
  raise_if (not (option_eq analysis.current_version_id (some version_id)))
      HiringError.version_not_current
  transcript ← gets (find_transcript analysis.interview_round_id)
  raise_if (is_stale version transcript) HiringError.version_stale
  pure (record { version = version; round_id = analysis.interview_round_id; to_status = to_status })

unfoldable pub decidable : ℕ → Application → HiringRequest → Deciding Plan
decidable application_id application payload = do
  to_status ← admissible application payload
  evidence application_id payload.analysis_version_id to_status
