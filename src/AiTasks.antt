-- ===== src/AiTasks.antt =====
-- AI tasks: the calls of backend/app/services/ai_tasks.py on a task that exists, with the rows of
-- backend/app/models/ai_task.py.
pub mod Recovery
pub mod Worker
pub mod Settle
pub mod Entries
pub mod Creation
pub mod Moves
pub mod Soundness
pub mod Numbering
pub mod Retries
pub mod Routing
pub mod Effects
pub mod System
mod Tests
mod WorkerTests
use ai_recruitment.Common.{
  ℕ, ◌+◌, Bool, true, false, not, ◌&&◌, ◌||◌, Option, none, some, List, [], ◌∷◌, ◌++◌, ◌==◌, ltb,
  leb, if◌then◌else◌, Session, pure, raise, gets, or_raise, raise_if, modify, ◌>>=◌, ◌>>◌,
}
use ai_recruitment.Offers.Base.{Request}
use ai_recruitment.Common.Text.{Text, codes, is_empty, strip}
use ai_recruitment.Common.Table.{Table, lookup, put, update_rows}

pub data TaskStatus : Type 0 where
  pending running succeeded failed output_invalid cancelled : TaskStatus

abbrev pub is_pending : TaskStatus → Bool
is_pending TaskStatus.pending = true
is_pending _ = false

abbrev pub is_running : TaskStatus → Bool
is_running TaskStatus.running = true
is_running _ = false

-- `{AI_TASK_STATUS_FAILED, AI_TASK_STATUS_OUTPUT_INVALID}`
abbrev pub is_retryable : TaskStatus → Bool
is_retryable TaskStatus.failed = true
is_retryable TaskStatus.output_invalid = true
is_retryable _ = false

pub data TaskType : Type 0 where
  jd_parse score_dimension_recommend resume_parse resume_score : TaskType
  interview_question_generate interview_round_analyze : TaskType
  interview_comprehensive_analyze : TaskType

-- `task.task_type in SENSITIVE_AI_TASK_TYPES`
unfoldable pub is_sensitive : TaskType → Bool
is_sensitive TaskType.interview_question_generate = true
is_sensitive TaskType.interview_round_analyze = true
is_sensitive TaskType.interview_comprehensive_analyze = true
is_sensitive _ = false

-- `AITask`, less its payloads.
pub record AiTask : Type 0 where
  pub task_type : TaskType
  pub business_id : ℕ
  pub status : TaskStatus
  pub has_result : Bool
  pub error_code : Option Text
  pub error_message : Option Text
  pub error_category : Option Text
  pub attempt_count : ℕ
  pub retry_cycle_no : ℕ
  pub cycle_attempt_count : ℕ
  pub started_at : Option ℕ
  pub finished_at : Option ℕ
  pub updated_at : ℕ

-- `AITaskAttempt`, less its payloads, its duration and the provider's identifiers.
pub record AiTaskAttempt : Type 0 where
  pub task_id : ℕ
  pub attempt_no : ℕ
  pub retry_cycle_no : ℕ
  pub cycle_attempt_no : ℕ
  pub status : TaskStatus
  pub started_at : ℕ
  pub http_status : Option ℕ
  pub error_category : Option Text
  pub error_message : Option Text
  pub finished_at : Option ℕ

-- The audit entries of the calls: who acts on which task, with the recorded changes.
pub data TaskAudit : Type 0 where
  -- `job.ai_task.retry`
  task_retried :
      (actor business_id task_id : ℕ) → TaskType → (retry_cycle_no attempt_count : ℕ) → TaskAudit
  -- `job.ai_task.create`
  task_created : (actor business_id task_id : ℕ) → TaskType → TaskAudit
  -- `ai_task.cancel`
  task_cancelled : (actor task_id : ℕ) → TaskType → (business_id : ℕ) → (reason : Text) → TaskAudit
  -- `ai_task.stale_running_recovered`
  task_recovered :
      (actor task_id : ℕ)
      → TaskType
      → (previous_status new_status : TaskStatus) → (expected_updated_at : ℕ) → (error_code : Text)
      → TaskAudit
  -- `ai_task.sensitive_reroute_failed`
  reroute_failed : (task_id : ℕ) → TaskType → (error_type : Text) → TaskAudit

-- What the worker passes on to the service of the task's type.
pub data Handoff : Type 0 where
  -- `_after_task_success` has stored the result
  result_stored : Handoff
  -- `apply_resume_parse_failure`
  resume_parse_failed : Handoff

-- The tables, the messages on the two queues (the task, and whether the queue is the sensitive
-- one), and what was passed on to the other services, task by task.
pub record TaskDb : Type 0 where
  pub tasks : Table AiTask
  pub attempts : Table AiTaskAttempt
  pub audit_logs : List TaskAudit
  pub queue : List (ℕ × Bool)
  pub handoffs : List (ℕ × Handoff)

-- `AITaskNotFoundError`, `AITaskStateError` and `AITaskValidationError` by message, and the two exceptions of the database layer.
pub data TaskError : Type 0 where
  task_not_found not_retryable not_pending not_running : TaskError
  expected_mismatch not_stale recovery_conflict : TaskError
  no_result_found integrity_error unsupported_task_type : TaskError

abbrev pub TaskCall : Type 0 → Type 0
TaskCall A = Session TaskError TaskDb A

-- `STALE_RUNNING_MIN_AGE`, in seconds
abbrev pub stale_running_min_age : ℕ
stale_running_min_age = 300

unfoldable pub save_task : ℕ → AiTask → TaskCall (Unit {0})
save_task id task = modify λ db. record db { tasks = put id task db.tasks }

unfoldable pub record_audit : TaskAudit → TaskCall (Unit {0})
record_audit entry = modify λ db. record db { audit_logs = db.audit_logs ++ entry ∷ [] }

unfoldable pub retried_task : ℕ → AiTask → AiTask
retried_task now task = record task {
  status = TaskStatus.pending;
  retry_cycle_no = task.retry_cycle_no + 1;
  cycle_attempt_count = 0;
  error_code = none;
  error_message = none;
  error_category = none;
  has_result = false;
  started_at = none;
  finished_at = none;
  updated_at = now;
}

-- `retry_ai_task`
unfoldable pub retry_ai_task : Request → ℕ → TaskCall AiTask
unfolding is_sensitive save_task retried_task record_audit
retry_ai_task c id = do
  task ← or_raise (← gets (λ db. lookup id db.tasks)) TaskError.task_not_found
  raise_if (not (is_retryable task.status)) TaskError.not_retryable
  let task' = retried_task c.now task
  save_task id task'
  record_audit (
      TaskAudit.task_retried c.actor task.business_id id task.task_type task'.retry_cycle_no
        task.attempt_count)
  modify λ db. record db { queue = db.queue ++ (id, is_sensitive task.task_type) ∷ [] }
  pure task'

-- `(reason or "").strip() or "cancelled"`
unfoldable pub cancel_message : Option Text → Text
unfolding strip
cancel_message none = codes "cancelled"
cancel_message (some reason) = if is_empty (strip reason) then codes "cancelled" else strip reason

unfoldable pub cancelled_task : ℕ → Option Text → AiTask → AiTask
unfolding cancel_message
cancelled_task now reason task = record task {
  status = TaskStatus.cancelled;
  finished_at = some now;
  updated_at = now;
  error_code = some (codes "cancelled");
  error_message = some (cancel_message reason);
}

-- `cancel_ai_task`; the guarded update sees the row that was read.
unfoldable pub cancel_ai_task : Request → ℕ → Option Text → TaskCall AiTask
unfolding save_task cancelled_task record_audit
cancel_ai_task c id reason = do
  task ← or_raise (← gets (λ db. lookup id db.tasks)) TaskError.task_not_found
  raise_if (not (is_pending task.status)) TaskError.not_pending
  let task' = cancelled_task c.now reason task
  save_task id task'
  record_audit
      (TaskAudit.task_cancelled c.actor id task.task_type task.business_id (cancel_message reason))
  pure task'

recovered_message : Text
recovered_message = codes "stale running recovered"

unfoldable pub recovered_task : ℕ → AiTask → AiTask
unfolding recovered_message
recovered_task now task = record task {
  status = TaskStatus.failed;
  error_code = some (codes "stale_running_recovered");
  error_category = some (codes "non_retryable");
  error_message = some recovered_message;
  finished_at = some now;
  updated_at = now;
}

-- The update of the attempts, on one row.
unfoldable pub recovered_attempt : ℕ → ℕ → AiTaskAttempt → AiTaskAttempt
unfolding recovered_message
recovered_attempt now id a =
    if a.task_id == id && is_running a.status
    then record a {
      status = TaskStatus.failed;
      error_category = some (codes "non_retryable");
      error_message = some recovered_message;
      finished_at = some now;
    }
    else a

-- The conditions of the guarded update of the task.
unfoldable pub still_stale : ℕ → ℕ → AiTask → Bool
still_stale now expected task =
    is_running task.status
    && task.updated_at == expected
    && leb (task.updated_at + stale_running_min_age) now

-- `mark_stale_failed_ai_task`
unfoldable pub mark_stale_failed_ai_task : Request → ℕ → ℕ → TaskCall AiTask
unfolding save_task recovered_task still_stale record_audit
mark_stale_failed_ai_task c id expected = do
  task ← or_raise (← gets (λ db. lookup id db.tasks)) TaskError.task_not_found
  raise_if (not (is_running task.status)) TaskError.not_running
  raise_if (not (task.updated_at == expected)) TaskError.expected_mismatch
  raise_if (ltb c.now (task.updated_at + stale_running_min_age)) TaskError.not_stale
  raise_if (not (still_stale c.now expected task)) TaskError.recovery_conflict
  let task' = recovered_task c.now task
  save_task id task'
  modify λ db. record db { attempts = update_rows (recovered_attempt c.now id) db.attempts }
  record_audit (
      TaskAudit.task_recovered c.actor id task.task_type task.status TaskStatus.failed expected
        (codes "stale_running_recovered"))
  pure task'
