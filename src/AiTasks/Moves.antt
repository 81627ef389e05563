-- ===== src/AiTasks/Moves.antt =====
-- How tasks and attempts may change, whatever call or run of the worker changes them: the abstract
-- description of backend/app/services/ai_tasks.py and backend/app/workers/ai_tasks.py.
use ai_recruitment.Common.{
  ℕ, ◌+◌, ◌≤◌, ◌≡◌, true, false, none, some, List, ◌∷◌, ◌++◌, bit, occurrences,
}
use ai_recruitment.Common.Table.{Table, lookup, put, update_rows}
use ai_recruitment.AiTasks.{
  TaskStatus, AiTask, AiTaskAttempt, is_pending, is_running, recovered_attempt,
}
use ai_recruitment.AiTasks.Worker.{ai_task_max_attempts, max_attempt_no}

-- The tasks, the attempts, and the tasks that a worker has claimed and not yet given an attempt.
pub record Ledger : Type 0 where
  pub tasks : Table AiTask
  pub attempts : Table AiTaskAttempt
  pub claimed : List ℕ

-- The row of a task that keeps its number of attempts.
pub record Keeps (t t' : AiTask) : Type 0 where
  pub same_type : t'.task_type ≡ t.task_type
  pub same_count : t'.attempt_count ≡ t.attempt_count

-- The row of an attempt that has ended.
pub record Ends (a a' : AiTaskAttempt) : Type 0 where
  pub same_task : a'.task_id ≡ a.task_id
  pub same_no : a'.attempt_no ≡ a.attempt_no
  pub over : is_running a'.status ≡ false

pub data Move : Ledger → Ledger → Type 0 where
  -- A pending task is added, with no attempt yet.
  create :
      (id : ℕ) (t' : AiTask) {l : Ledger}
      → lookup id l.tasks ≡ none
      → is_pending t'.status ≡ true
      → t'.cycle_attempt_count ≡ 0
      → t'.attempt_count ≡ 0
      → Move l (record l { tasks = put id t' l.tasks })
  -- A pending task starts to run.
  claim :
      (id : ℕ) (t t' : AiTask) {l : Ledger}
      → lookup id l.tasks ≡ some t
      → is_pending t.status ≡ true
      → Keeps t t'
      → t'.status ≡ TaskStatus.running
      → t'.cycle_attempt_count ≡ t.cycle_attempt_count
      → Move l (record l { tasks = put id t' l.tasks; claimed = id ∷ l.claimed })
  -- A claimed task gets its next attempt.
  start :
      (id k : ℕ) (t t' : AiTask) (a : AiTaskAttempt) (before behind : List ℕ) {l : Ledger}
      → l.claimed ≡ before ++ id ∷ behind
      → lookup id l.tasks ≡ some t
      → lookup k l.attempts ≡ none
      → t'.task_type ≡ t.task_type
      → t'.status ≡ t.status
      → t'.cycle_attempt_count ≡ t.cycle_attempt_count + 1
      → t'.attempt_count ≡ max_attempt_no id l.attempts + 1
      → a.task_id ≡ id
      → a.attempt_no ≡ max_attempt_no id l.attempts + 1
      → is_running a.status ≡ true
      → Move l (record {
        tasks = put id t' l.tasks;
        attempts = put k a l.attempts;
        claimed = before ++ behind;
      })
  -- The running attempt of a running task ends, and with it the run of the task.
  settle :
      (id k : ℕ) (t t' : AiTask) (a a' : AiTaskAttempt) {l : Ledger}
      → lookup id l.tasks ≡ some t
      → lookup k l.attempts ≡ some a
      → a.task_id ≡ id
      → is_running t.status ≡ true
      → is_running a.status ≡ true
      → Keeps t t'
      → Ends a a'
      → is_running t'.status ≡ false
      → t'.cycle_attempt_count ≡ t.cycle_attempt_count
      → (is_pending t'.status ≡ true → t.cycle_attempt_count + 1 ≤ ai_task_max_attempts)
      → Move l (record l { tasks = put id t' l.tasks; attempts = put k a' l.attempts })
  -- An attempt of a task that does not run ends.
  late :
      (id k : ℕ) (t t' : AiTask) (a a' : AiTaskAttempt) {l : Ledger}
      → lookup id l.tasks ≡ some t
      → lookup k l.attempts ≡ some a
      → a.task_id ≡ id
      → is_running t.status ≡ false
      → Keeps t t'
      → Ends a a'
      → t'.status ≡ t.status
      → t'.cycle_attempt_count ≡ t.cycle_attempt_count
      → Move l (record l { tasks = put id t' l.tasks; attempts = put k a' l.attempts })
  -- A task that does not run is cancelled, or put back into the queue.
  steer :
      (id : ℕ) (t t' : AiTask) {l : Ledger}
      → lookup id l.tasks ≡ some t
      → is_running t.status ≡ false
      → Keeps t t'
      → is_running t'.status ≡ false
      → (t.cycle_attempt_count + bit (is_pending t.status) ≤ ai_task_max_attempts
          → t'.cycle_attempt_count + bit (is_pending t'.status) ≤ ai_task_max_attempts)
      → Move l (record l { tasks = put id t' l.tasks })
  -- A running task without a claim under way is declared failed, with its attempts.
  recover :
      (now id : ℕ) (t t' : AiTask) {l : Ledger}
      → occurrences id l.claimed ≡ 0
      → lookup id l.tasks ≡ some t
      → is_running t.status ≡ true
      → Keeps t t'
      → t'.status ≡ TaskStatus.failed
      → t'.cycle_attempt_count ≡ t.cycle_attempt_count
      → Move l (record l {
        tasks = put id t' l.tasks;
        attempts = update_rows (recovered_attempt now id) l.attempts;
      })
  -- A worker stops between its claim and the attempt.
  abandon :
      (id : ℕ) (before behind : List ℕ) {l : Ledger}
      → l.claimed ≡ before ++ id ∷ behind
      → Move l (record l { claimed = before ++ behind })
  rest : {l : Ledger} → Move l l

-- A move, or the end of a run whose worker holds task and attempt as they were before others changed
-- them: it overwrites both rows.
pub data TaskChange : Ledger → Ledger → Type 0 where
  by : {l l' : Ledger} → Move l l' → TaskChange l l'
  overwrite :
      (id k : ℕ) (t t' : AiTask) (a a' : AiTaskAttempt) {l : Ledger}
      → lookup id l.tasks ≡ some t
      → lookup k l.attempts ≡ some a
      → a.task_id ≡ id
      → Keeps t t'
      → Ends a a'
      → TaskChange l (record l { tasks = put id t' l.tasks; attempts = put k a' l.attempts })
