-- ===== src/AiTasks/Worker.antt =====
-- The AI worker (backend/app/workers/ai_tasks.py). `_handle_process` commits after the claim and
-- after the new attempt, and the provider answers in between: it is `claim_task`, `start_attempt`
-- and `settle`. A run that returns without a commit leaves the database as it was.
use ai_recruitment.Common.{
  ℕ, ◌+◌, Bool, true, false, ◌&&◌, ◌||◌, Option, none, some, [], ◌∷◌, ◌==◌, ltb, if◌then◌else◌,
  is_some, or_else, nulled, pure, gets, or_raise, raise_if, modify, ◌>>=◌, ◌>>◌,
}
use ai_recruitment.Common.Text.{Text, codes, text_eq, is_empty, strip}
use ai_recruitment.Common.Table.{Table, lookup, put, count}
use ai_recruitment.Offers.Base.{given}
use ai_recruitment.AiTasks.{
  TaskStatus, TaskType, AiTask, AiTaskAttempt, TaskCall, is_pending, is_sensitive, no_result_found,
  integrity_error, save_task,
}

abbrev pub is_cancelled : TaskStatus → Bool
is_cancelled TaskStatus.cancelled = true
is_cancelled _ = false

-- `ProviderOutcome` of backend/app/services/ai_providers/base.py, less the payloads.
pub record ProviderOutcome : Type 0 where
  pub succeeded : Bool
  pub has_result : Bool
  pub error_code : Option Text
  pub error_message : Option Text
  pub error_category : Option Text
  pub http_status : Option ℕ

-- One of `_STAGE8_OUTPUT_INVALID_EXCEPTIONS`.
pub record OutputInvalid : Type 0 where
  pub code : Option Text
  pub message : Text

-- What the provider phase gave: the frozen input could not be loaded, or the provider's answer.
pub data Answer : Type 0 where
  unloaded : OutputInvalid → Answer
  answered : ProviderOutcome → Answer

-- How `_after_task_success` ended: by return, by one of `_STAGE8_OUTPUT_INVALID_EXCEPTIONS`, or by
-- another exception, given by the name of its type.
pub data Persisted : Type 0 where
  stored : Persisted
  invalid : OutputInvalid → Persisted
  crashed : Text → Persisted

-- The local variables of `_handle_process` once the attempt is committed; `task` and `attempt` are the
-- objects that its session goes on to hold.
pub record Claim : Type 0 where
  pub attempt_id : ℕ
  pub attempt_no : ℕ
  pub retry_cycle_no : ℕ
  pub cycle_attempt_no : ℕ
  pub task : AiTask
  pub attempt : AiTaskAttempt

-- The dictionary that a run returns; `claimed` goes on to the attempt.
pub data TaskOutcome : Type 0 where
  missing claimed rerouted reroute_failed : TaskOutcome
  skipped : TaskStatus → TaskOutcome
  rejected : TaskType → TaskOutcome
  late_response : (attempt_no : ℕ) → TaskOutcome
  skipped_stale_owner : TaskStatus → (attempt_no : ℕ) → TaskOutcome
  finished : TaskStatus → (attempt_no : ℕ) → TaskOutcome
  retry_scheduled : (retry_countdown attempt_no retry_cycle_no cycle_attempt_no : ℕ) → TaskOutcome

abbrev pub ai_task_max_attempts : ℕ
ai_task_max_attempts = 3

abbrev pub retryable : Text
retryable = codes "retryable"

abbrev pub non_retryable : Text
non_retryable = codes "non_retryable"

unfoldable pub should_auto_retry : Text → ℕ → Bool
should_auto_retry error_category cycle_attempt_count =
    text_eq error_category retryable && ltb cycle_attempt_count ai_task_max_attempts

-- `retry_countdown_seconds(…) or 10`
unfoldable pub retry_countdown : ℕ → ℕ
retry_countdown n = if n == 1 then 10 else if n == 2 then 30 else 10

-- The guarded update that claims a pending task.
unfoldable pub claimed_task : ℕ → AiTask → AiTask
claimed_task now task = record task { status = TaskStatus.running; updated_at = now }

unfoldable pub claim_found : ℕ → ℕ → Option AiTask → TaskCall TaskOutcome
unfolding claimed_task
claim_found now id none = pure TaskOutcome.missing
claim_found now id (some task) =
    if is_pending task.status
    then save_task id (claimed_task now task) >> pure TaskOutcome.claimed
    else pure (TaskOutcome.skipped task.status)

-- `_handle_process` up to the commit of the claim.
unfoldable pub claim_task : ℕ → ℕ → TaskCall TaskOutcome
unfolding claim_found
claim_task now id = do task ← gets (λ db. lookup id db.tasks); claim_found now id task

-- `coalesce(max(attempt_no), 0)` over the attempts of a task
unfoldable pub max_attempt_no : ℕ → Table AiTaskAttempt → ℕ
max_attempt_no id [] = 0
max_attempt_no id ((j, a) ∷ t) =
    let rest = max_attempt_no id t in
    if a.task_id == id && ltb rest a.attempt_no then a.attempt_no else rest

abbrev pub has_number : ℕ → ℕ → AiTaskAttempt → Bool
has_number id n a = a.task_id == id && a.attempt_no == n

unfoldable pub counted_task : ℕ → ℕ → AiTask → AiTask
counted_task now attempt_no task = record task {
  attempt_count = attempt_no;
  cycle_attempt_count = task.cycle_attempt_count + 1;
  started_at = some (or_else task.started_at now);
  updated_at = now;
  error_code = none;
  error_message = none;
  error_category = none;
}

unfoldable pub new_attempt : ℕ → ℕ → ℕ → AiTask → AiTaskAttempt
new_attempt now id attempt_no task = record {
  task_id = id;
  attempt_no = attempt_no;
  retry_cycle_no = task.retry_cycle_no;
  cycle_attempt_no = task.cycle_attempt_count + 1;
  status = TaskStatus.running;
  started_at = now;
  http_status = none;
  error_category = none;
  error_message = none;
  finished_at = none;
}

-- `_handle_process` from the claim to the commit of the new attempt. The flush checks the primary
-- key and `uq_ai_task_attempts_task_attempt`.
unfoldable pub start_attempt : ℕ → ℕ → ℕ → TaskCall Claim
unfolding counted_task new_attempt
start_attempt now id attempt_id = do
  task ← or_raise (← gets (λ db. lookup id db.tasks)) no_result_found
  max_no ← gets (λ db. max_attempt_no id db.attempts)
  save_task id (counted_task now (max_no + 1) task)
  raise_if (is_some (← gets (λ db. lookup attempt_id db.attempts))) integrity_error
  raise_if (ltb 0 (← gets (λ db. count (has_number id (max_no + 1)) db.attempts))) integrity_error
  modify λ db. record db {
    attempts = put attempt_id (new_attempt now id (max_no + 1) task) db.attempts;
  }
  pure (record {
    attempt_id = attempt_id;
    attempt_no = max_no + 1;
    retry_cycle_no = task.retry_cycle_no;
    cycle_attempt_no = task.cycle_attempt_count + 1;
    task = counted_task now (max_no + 1) task;
    attempt = new_attempt now id (max_no + 1) task;
  })

-- `_output_invalid_code`
unfoldable pub output_invalid_code : Option Text → Text
output_invalid_code none = codes "output_validation_failed"
output_invalid_code (some code) =
    if is_empty (strip code) then codes "output_validation_failed" else code

-- The outcome that `_handle_process` goes on with.
unfoldable pub outcome_of : Answer → ProviderOutcome
unfolding output_invalid_code
outcome_of (Answer.answered outcome) = outcome
outcome_of (Answer.unloaded e) = record {
  succeeded = false;
  has_result = false;
  error_code = some (output_invalid_code e.code);
  error_message = some (or_else (given (some e.message)) (codes "frozen input failed validation"));
  error_category = some non_retryable;
  http_status = none;
}

abbrev pub is_unloaded : Answer → Bool
is_unloaded (Answer.unloaded e) = true
is_unloaded (Answer.answered outcome) = false

abbrev pub is_code : Option Text → Text → Bool
is_code none code = false
is_code (some c) code = text_eq c code

-- What a finished run writes: the status of task and attempt, and the error with its category.
pub record Verdict : Type 0 where
  pub status : TaskStatus
  pub error_code : Text
  pub error_message : Text
  pub error_category : Text

-- The task and the attempt at the end of a run. Payloads of the interview tasks are written on
-- every branch, and their public part is the result.
unfoldable pub finished_task : ℕ → Verdict → AiTask → AiTask
finished_task now v task = record task {
  status = v.status;
  has_result = is_sensitive task.task_type || task.has_result;
  error_code = some v.error_code;
  error_message = some v.error_message;
  error_category = some v.error_category;
  finished_at = some now;
  updated_at = now;
}

unfoldable pub finished_attempt : ℕ → Option ℕ → Verdict → AiTaskAttempt → AiTaskAttempt
finished_attempt now http_status v a = record a {
  status = v.status;
  http_status = http_status;
  error_category = some v.error_category;
  error_message = some v.error_message;
  finished_at = some now;
}

unfoldable pub succeeded_task : ℕ → AiTask → AiTask
succeeded_task now task = record task {
  status = TaskStatus.succeeded;
  has_result = true;
  finished_at = some now;
  updated_at = now;
}

unfoldable pub succeeded_attempt : ℕ → Option ℕ → AiTaskAttempt → AiTaskAttempt
succeeded_attempt now http_status a = record a {
  status = TaskStatus.succeeded;
  http_status = http_status;
  finished_at = some now;
}

-- The row of a task that is tried again, with the object that the worker holds.
unfoldable pub rescheduled_task : ℕ → Verdict → AiTask → AiTask → AiTask
rescheduled_task now v held task = record task {
  status = TaskStatus.pending;
  has_result = is_sensitive task.task_type || task.has_result;
  error_code = some v.error_code;
  error_message = some v.error_message;
  error_category = some v.error_category;
  finished_at = nulled held.finished_at task.finished_at;
  updated_at = now;
}

-- A response to a cancelled task. The task's payloads are written, which sets `updated_at`.
unfoldable pub late_task : ℕ → AiTask → AiTask
late_task now task = record task {
  has_result = is_sensitive task.task_type || task.has_result;
  updated_at = now;
}

unfoldable pub late_attempt : ℕ → Option ℕ → AiTaskAttempt → AiTaskAttempt
late_attempt now http_status a = record a {
  status = TaskStatus.failed;
  http_status = http_status;
  error_message = some (codes "late response after cancel; not set as current result");
  finished_at = some now;
}
