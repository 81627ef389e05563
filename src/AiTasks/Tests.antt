-- ===== src/AiTasks/Tests.antt =====
-- Concrete runs of AI tasks.
use ai_recruitment.Common.{returned, ◌+◌, ◌≤◌, ◌≡◌, ◌↔◌, refl, true, false, none, some, [], ◌∷◌, ok}
use ai_recruitment.Offers.Base.{Request}
use ai_recruitment.Common.Table.{lookup, count}
use ai_recruitment.AiTasks.{
  TaskStatus, TaskType, AiTask, AiTaskAttempt, TaskDb, stale_running_min_age, retry_ai_task,
  mark_stale_failed_ai_task,
}
use ai_recruitment.AiTasks.Recovery.{runs_for, recover_iff, recover-retry}

abbrev at_500 : Request
at_500 = record { actor = 9; now = 500 }

abbrev at_600 : Request
at_600 = record { actor = 9; now = 600 }

abbrev stuck : AiTask
stuck = record {
  task_type = TaskType.resume_score;
  business_id = 70;
  status = TaskStatus.running;
  has_result = false;
  error_code = none;
  error_message = none;
  error_category = none;
  attempt_count = 2;
  retry_cycle_no = 0;
  cycle_attempt_count = 2;
  started_at = some 100;
  finished_at = none;
  updated_at = 110;
}

abbrev done : AiTask
done = record stuck { status = TaskStatus.succeeded; has_result = true }

abbrev running_attempt : AiTaskAttempt
running_attempt = record {
  task_id = 1;
  attempt_no = 2;
  retry_cycle_no = 0;
  cycle_attempt_no = 2;
  status = TaskStatus.running;
  started_at = 110;
  http_status = none;
  error_category = none;
  error_message = none;
  finished_at = none;
}

abbrev tasks_db : TaskDb
tasks_db = record {
  tasks = (1, stuck) ∷ (2, done) ∷ [];
  attempts = (5, running_attempt) ∷ [];
  audit_logs = [];
  queue = [];
  handoffs = [];
}

recover_iff_example :
    ((r : AiTask × TaskDb) × (mark_stale_failed_ai_task at_500 1 110 tasks_db ≡ ok r)) ↔ (
      (stuck.status ≡ TaskStatus.running)
      × (stuck.updated_at ≡ 110)
      × (110 + stale_running_min_age ≤ at_500.now))
unfolding lookup
recover_iff_example = recover_iff at_500 1 110 stuck tasks_db refl

abbrev recovered : AiTask × TaskDb
recovered = returned (mark_stale_failed_ai_task at_500 1 110 tasks_db) (stuck, tasks_db)

recover-retry_example :
    (task : AiTask) × (r' : AiTask × TaskDb) × (lookup 1 tasks_db.tasks ≡ some task)
    × (count (runs_for 1) recovered.1.attempts ≡ 0)
    × (retry_ai_task at_600 1 recovered.1 ≡ ok r')
    × (lookup 1 r'.1.tasks ≡ some r'.0)
    × (r'.0.status ≡ TaskStatus.pending)
    × (r'.0.retry_cycle_no ≡ task.retry_cycle_no + 1)
    × (r'.0.cycle_attempt_count ≡ 0)
    × (r'.0.attempt_count ≡ task.attempt_count)
unfolding mark_stale_failed_ai_task lookup
recover-retry_example = recover-retry at_500 at_600 1 110 tasks_db recovered refl
