-- ===== src/AiTasks/Creation.antt =====
-- `create_ai_task` of backend/app/services/ai_tasks.py, once the job and its draft are read and the
-- input snapshot is built.
use ai_recruitment.Common.{
  ℕ, Bool, true, false, not, none, [], ◌∷◌, ◌++◌, is_some, pure, gets, raise_if, modify, ◌>>=◌,
  ◌>>◌,
}
use ai_recruitment.Common.Table.{lookup}
use ai_recruitment.Offers.Base.{Request}
use ai_recruitment.AiTasks.{
  TaskStatus, TaskType, AiTask, TaskAudit, TaskCall, integrity_error, unsupported_task_type,
  save_task, record_audit,
}

unfoldable pub new_task : ℕ → TaskType → ℕ → AiTask
new_task now task_type business_id = record {
  task_type = task_type;
  business_id = business_id;
  status = TaskStatus.pending;
  has_result = false;
  error_code = none;
  error_message = none;
  error_category = none;
  attempt_count = 0;
  retry_cycle_no = 0;
  cycle_attempt_count = 0;
  started_at = none;
  finished_at = none;
  updated_at = now;
}

-- The types that `_build_input_snapshot` knows.
unfoldable pub is_job_type : TaskType → Bool
is_job_type TaskType.jd_parse = true
is_job_type TaskType.score_dimension_recommend = true
is_job_type _ = false

-- `create_ai_task`
unfoldable pub create_ai_task : Request → ℕ → TaskType → ℕ → TaskCall AiTask
unfolding new_task is_job_type save_task record_audit
create_ai_task c id task_type job_id = do
  raise_if (not (is_job_type task_type)) unsupported_task_type
  raise_if (is_some (← gets (λ db. lookup id db.tasks))) integrity_error
  let task = new_task c.now task_type job_id
  save_task id task
  record_audit (TaskAudit.task_created c.actor job_id id task_type)
  modify λ db. record db { queue = db.queue ++ (id, false) ∷ [] }
  pure task
