-- ===== src/AiTasks/Entries.antt =====
-- The entries of the AI worker's two queues (backend/app/workers/ai_tasks.py):
-- `_process_default_ai_task_async` and `_process_sensitive_ai_task_async`, up to the commit of the
-- claim. The type of a task never changes, so the read before the claim belongs to its transaction.
use ai_recruitment.Common.{
  ℕ, Bool, true, false, Option, none, some, [], ◌∷◌, ◌++◌, if◌then◌else◌, pure, gets, modify, ◌>>=◌,
  ◌>>◌,
}
use ai_recruitment.Common.Text.{Text}
use ai_recruitment.Common.Table.{lookup}
use ai_recruitment.AiTasks.{AiTask, TaskAudit, TaskCall, is_sensitive, record_audit}
use ai_recruitment.AiTasks.Worker.{TaskOutcome, claim_task}

-- `_maybe_reroute_sensitive_from_default` on an interview task: the message goes to the sensitive
-- queue, or the broker turns it down with an exception of the given type.
unfoldable pub reroute : ℕ → AiTask → Option Text → TaskCall TaskOutcome
unfolding record_audit
reroute id task none = do
  modify λ db. record db { queue = db.queue ++ (id, true) ∷ [] }
  pure TaskOutcome.rerouted
reroute id task (some error_type) = do
  record_audit (TaskAudit.reroute_failed id task.task_type error_type)
  pure TaskOutcome.reroute_failed

unfoldable pub enter_default_found : ℕ → ℕ → Option Text → Option AiTask → TaskCall TaskOutcome
enter_default_found now id broken none = claim_task now id
enter_default_found now id broken (some task) =
    if is_sensitive task.task_type then reroute id task broken else claim_task now id

-- `_process_default_ai_task_async`
unfoldable pub enter_default : ℕ → ℕ → Option Text → TaskCall TaskOutcome
unfolding enter_default_found
enter_default now id broken = do
  task ← gets (λ db. lookup id db.tasks)
  enter_default_found now id broken task

unfoldable pub enter_sensitive_found : ℕ → ℕ → Option AiTask → TaskCall TaskOutcome
enter_sensitive_found now id none = pure TaskOutcome.missing
enter_sensitive_found now id (some task) =
    if is_sensitive task.task_type
    then claim_task now id
    else pure (TaskOutcome.rejected task.task_type)

-- `_process_sensitive_ai_task_async`
unfoldable pub enter_sensitive : ℕ → ℕ → TaskCall TaskOutcome
unfolding enter_sensitive_found
enter_sensitive now id = do
  task ← gets (λ db. lookup id db.tasks)
  enter_sensitive_found now id task

-- The entry of a queue: the sensitive one, or the default one.
unfoldable pub enter : Bool → ℕ → ℕ → Option Text → TaskCall TaskOutcome
enter true now id broken = enter_sensitive now id
enter false now id broken = enter_default now id broken
