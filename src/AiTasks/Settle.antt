-- ===== src/AiTasks/Settle.antt =====
-- The end of a run of the AI worker (backend/app/workers/ai_tasks.py): `_handle_process` from the
-- provider's answer on, and the entries of the two queues.
pub mod Effects
use ai_recruitment.Common.{
  ℕ, ◌+◌, Bool, true, false, not, ◌&&◌, ◌||◌, Option, none, some, List, [], ◌∷◌, ◌++◌,
  if◌then◌else◌, or_else, Session, pure, raise, gets, or_raise, raise_if, modify, ◌>>=◌, ◌>>◌,
}
use ai_recruitment.Common.Text.{Text, codes}
use ai_recruitment.Common.Table.{lookup, put}
use ai_recruitment.Offers.Base.{given}
use ai_recruitment.AiTasks.{
  TaskStatus, TaskType, AiTask, AiTaskAttempt, TaskAudit, Handoff, TaskDb, TaskCall, is_running,
  is_sensitive, no_result_found, save_task, record_audit,
}
use ai_recruitment.AiTasks.Worker.{
  is_cancelled, ProviderOutcome, OutputInvalid, Answer, Persisted, Claim, TaskOutcome,
  non_retryable, should_auto_retry, retry_countdown, output_invalid_code, outcome_of, is_unloaded,
  is_code, Verdict, finished_task, finished_attempt, succeeded_task, succeeded_attempt,
  rescheduled_task, late_task, late_attempt, claim_task, start_attempt,
}

unfoldable pub save_attempt : ℕ → AiTaskAttempt → TaskCall (Unit {0})
save_attempt id a = modify λ db. record db { attempts = put id a db.attempts }

unfoldable pub hand_off : ℕ → Handoff → TaskCall (Unit {0})
hand_off id h = modify λ db. record db { handoffs = db.handoffs ++ (id, h) ∷ [] }

-- `_after_task_success` on the types that it stores nothing for
unfoldable pub after_task_success : TaskType → Persisted → Persisted
after_task_success TaskType.jd_parse persisted = Persisted.stored
after_task_success TaskType.score_dimension_recommend persisted = Persisted.stored
after_task_success _ persisted = persisted

-- `_after_task_failure`
unfoldable pub after_task_failure : ℕ → TaskType → TaskCall (Unit {0})
unfolding hand_off
after_task_failure id TaskType.resume_parse = hand_off id Handoff.resume_parse_failed
after_task_failure id _ = pure tt

-- A run that ends the task with an error; `notify` says whether the branch calls
-- `_after_task_failure`.
unfoldable pub finish :
    ℕ → ℕ → Claim → Option ℕ → Bool → Verdict → AiTask → AiTaskAttempt → TaskCall TaskOutcome
unfolding finished_task finished_attempt save_attempt
finish now id claim http_status notify v task a = do
  save_task id (finished_task now v task)
  save_attempt claim.attempt_id (finished_attempt now http_status v a)
  if notify then after_task_failure id task.task_type else pure tt
  pure (TaskOutcome.finished v.status claim.attempt_no)

unfoldable pub finish_succeeded :
    ℕ → ℕ → Claim → Option ℕ → AiTask → AiTaskAttempt → TaskCall TaskOutcome
unfolding succeeded_task succeeded_attempt save_attempt hand_off
finish_succeeded now id claim http_status task a = do
  save_task id (succeeded_task now task)
  save_attempt claim.attempt_id (succeeded_attempt now http_status a)
  hand_off id Handoff.result_stored
  pure (TaskOutcome.finished TaskStatus.succeeded claim.attempt_no)

-- The run ends in a failure that is tried again: task and queue message wait for the next attempt.
unfoldable pub reschedule :
    ℕ → ℕ → Claim → Option ℕ → Verdict → AiTask → AiTaskAttempt → TaskCall TaskOutcome
unfolding finished_attempt rescheduled_task save_attempt
reschedule now id claim http_status v task a = do
  save_task id (rescheduled_task now v claim.task task)
  save_attempt claim.attempt_id (finished_attempt now http_status v a)
  modify λ db. record db { queue = db.queue ++ (id, is_sensitive task.task_type) ∷ [] }
  pure (
      TaskOutcome.retry_scheduled (retry_countdown claim.task.cycle_attempt_count) claim.attempt_no
        claim.retry_cycle_no claim.cycle_attempt_no)

-- The error of a provider's failure, ending in a given status.
unfoldable pub provider_failure : TaskStatus → ProviderOutcome → Verdict
provider_failure status outcome = record {
  status = status;
  error_code = or_else (given outcome.error_code) (codes "provider_error");
  error_message = or_else (given outcome.error_message) (codes "AI provider failed");
  error_category = or_else (given outcome.error_category) non_retryable;
}

unfoldable pub output_rejected : OutputInvalid → Verdict
output_rejected e = record {
  status = TaskStatus.output_invalid;
  error_code = output_invalid_code e.code;
  error_message = e.message;
  error_category = non_retryable;
}

-- `persist_failed`, with `_scrubbed_persist_error_message`
unfoldable pub persist_failed : Text → Verdict
persist_failed error_type = record {
  status = TaskStatus.failed;
  error_code = codes "persist_failed";
  error_message = codes "orm_persistence:" ++ error_type;
  error_category = non_retryable;
}

-- The branch of a result, by how storing it ended.
unfoldable pub settle_result :
    ℕ → ℕ → Claim → Option ℕ → Persisted → AiTask → AiTaskAttempt → TaskCall TaskOutcome
unfolding output_rejected persist_failed
settle_result now id claim http_status Persisted.stored task a =
    finish_succeeded now id claim http_status task a
settle_result now id claim http_status (Persisted.invalid e) task a =
    finish now id claim http_status (not (is_sensitive task.task_type)) (output_rejected e) task a
settle_result now id claim http_status (Persisted.crashed error_type) task a =
    finish now id claim http_status false (persist_failed error_type) task a

-- The branches after the check for a cancelled task, for a worker that owns the task.
unfoldable pub settle_owned :
    ℕ → ℕ → Claim → Answer → Persisted → AiTask → AiTaskAttempt → TaskCall TaskOutcome
unfolding outcome_of after_task_success provider_failure
settle_owned now id claim answer persisted task a =
    let outcome = outcome_of answer in
    let notify = not (is_sensitive task.task_type) in
    let lost = provider_failure TaskStatus.failed outcome in
    if outcome.succeeded && outcome.has_result
    then settle_result now id claim outcome.http_status
        (after_task_success task.task_type persisted) task a
    else if is_code outcome.error_code (codes "output_validation_failed") || is_unloaded answer
    then finish now id claim outcome.http_status notify
        (provider_failure TaskStatus.output_invalid outcome) task a
    else if should_auto_retry lost.error_category claim.task.cycle_attempt_count
    then reschedule now id claim outcome.http_status lost task a
    else finish now id claim outcome.http_status notify lost task a

-- `_handle_process` from the provider's answer on. Each branch that ends the run first calls
-- `_reassert_running_ownership_for_terminal`; without the ownership nothing is committed. The session
-- does not expire its objects, so the selects give back those that the worker holds, and their status
-- is that of `start_attempt`; updates go to the rows `task` and `a`.
unfoldable pub settle : ℕ → ℕ → Claim → Answer → Persisted → TaskCall TaskOutcome
unfolding outcome_of late_task late_attempt save_attempt
settle now id claim answer persisted = do
  task ← or_raise (← gets (λ db. lookup id db.tasks)) no_result_found
  a ← or_raise (← gets (λ db. lookup claim.attempt_id db.attempts)) no_result_found
  if is_cancelled claim.task.status
      then (do
        save_task id (late_task now task)
        save_attempt claim.attempt_id (late_attempt now (outcome_of answer).http_status a)
        pure (TaskOutcome.late_response claim.attempt_no))
      else if is_running claim.task.status && is_running claim.attempt.status
      then settle_owned now id claim answer persisted task a
      else pure (TaskOutcome.skipped_stale_owner claim.task.status claim.attempt_no)
