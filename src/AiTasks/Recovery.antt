-- ===== src/AiTasks/Recovery.antt =====
-- Recovering a stuck AI task and retrying it (backend/app/services/ai_tasks.py).
use ai_recruitment.Common.{
  ℕ, ◌+◌, ◌≤◌, ◌≡◌, ◌↔◌, ◌⊎◌, refl, Bool, true, ◌&&◌, ◌==◌, Option, some, Option-cases,
  Result-cases, inl, inr, [], ◌∷◌, ok, err, arith,
}
use ai_recruitment.Common.Text.{Text}
use ai_recruitment.Offers.Base.{Request}
use ai_recruitment.Common.Table.{Table, lookup, put, count, update_rows, lookup-put_self}
use ai_recruitment.AiTasks.{
  TaskStatus, AiTask, AiTaskAttempt, TaskDb, is_running, stale_running_min_age, retried_task,
  retry_ai_task, cancel_ai_task, not_retryable, not_pending, not_running, recovered_task,
  recovered_attempt, mark_stale_failed_ai_task,
}

-- An attempt of the task that runs.
abbrev pub runs_for : ℕ → AiTaskAttempt → Bool
runs_for id a = a.task_id == id && is_running a.status

pub count-recovered_attempt :
    (now id : ℕ) (t : Table AiTaskAttempt)
    → count (runs_for id) (update_rows (recovered_attempt now id) t) ≡ 0
unfolding count update_rows recovered_attempt
count-recovered_attempt now id [] = refl
count-recovered_attempt now id ((j, a) ∷ t) = ground (arith, count-recovered_attempt now id t)

-- A task can be recovered exactly if it runs, was last updated when the caller says, and that was at
-- least the minimal age ago.
pub recover_iff :
    (c : Request) (id expected : ℕ) (task : AiTask) (db : TaskDb)
    → lookup id db.tasks ≡ some task
    → ((r : AiTask × TaskDb) × (mark_stale_failed_ai_task c id expected db ≡ ok r)) ↔ (
        (task.status ≡ TaskStatus.running)
        × (task.updated_at ≡ expected)
        × (expected + stale_running_min_age ≤ c.now))
unfolding mark_stale_failed_ai_task
recover_iff c id expected task db e = (
  λ (r, w). ground (arith, e, w),
  λ (p, q, m). elim (Result-cases (mark_stale_failed_ai_task c id expected db)) [
    | inl w ↦ w
    | inr (y, w) ↦ ground (arith, e, p, q, m, w)
  ],
)

pub mark_stale_failed_ai_task-ok :
    (c : Request) (id expected : ℕ) (db : TaskDb) (r : AiTask × TaskDb)
    → mark_stale_failed_ai_task c id expected db ≡ ok r
    → (task : AiTask) × (lookup id db.tasks ≡ some task)
      × (is_running task.status ≡ true)
      × (r.1.tasks ≡ put id (recovered_task c.now task) db.tasks)
      × (r.1.attempts ≡ update_rows (recovered_attempt c.now id) db.attempts)
unfolding mark_stale_failed_ai_task
mark_stale_failed_ai_task-ok c id expected db r h = elim (Option-cases (lookup id db.tasks)) [
  | inl n ↦ ground (arith, n, h)
  | inr (task, e) ↦ (task, e, ground (arith, e, h), ground (arith, e, h), ground (arith, e, h))
]

-- A task that was recovered has no running attempt, and can be retried: the retry makes it pending
-- in the next cycle, with no attempt counted in that cycle and all attempts counted as before.
pub recover-retry :
    (c c' : Request) (id expected : ℕ) (db : TaskDb) (r : AiTask × TaskDb)
    → mark_stale_failed_ai_task c id expected db ≡ ok r
    → (task : AiTask) × (r' : AiTask × TaskDb) × (lookup id db.tasks ≡ some task)
      × (count (runs_for id) r.1.attempts ≡ 0)
      × (retry_ai_task c' id r.1 ≡ ok r')
      × (lookup id r'.1.tasks ≡ some r'.0)
      × (r'.0.status ≡ TaskStatus.pending)
      × (r'.0.retry_cycle_no ≡ task.retry_cycle_no + 1)
      × (r'.0.cycle_attempt_count ≡ 0)
      × (r'.0.attempt_count ≡ task.attempt_count)
unfolding retry_ai_task retried_task recovered_task
recover-retry c c' id expected db r h =
    let (task, e, s, p, q) = mark_stale_failed_ai_task-ok c id expected db r h in
    let t = recovered_task c.now task in
    let f : lookup id r.1.tasks ≡ some t = rw p (lookup-put_self id t db.tasks) in
    elim (Result-cases (retry_ai_task c' id r.1)) [
      | inl (r', w) ↦ (
        task,
        r',
        e,
        rw q (count-recovered_attempt c.now id db.attempts),
        w,
        ground (arith, f, w, lookup-put_self id (retried_task c'.now t) r.1.tasks),
        ground (arith, f, w),
        ground (arith, f, w),
        ground (arith, f, w),
        ground (arith, f, w),
      )
      | inr (y, w) ↦ ground (arith, f, w)
    ]

-- A task that has succeeded or is cancelled is turned down by a retry, a cancellation and a
-- recovery.
pub final_refused :
    (c : Request) (id expected : ℕ) (reason : Option Text) (task : AiTask) (db : TaskDb)
    → lookup id db.tasks ≡ some task
    → (task.status ≡ TaskStatus.succeeded) ⊎ (task.status ≡ TaskStatus.cancelled)
    → (retry_ai_task c id db ≡ err not_retryable)
      × (cancel_ai_task c id reason db ≡ err not_pending)
      × (mark_stale_failed_ai_task c id expected db ≡ err not_running)
unfolding retry_ai_task cancel_ai_task mark_stale_failed_ai_task
final_refused c id expected reason task db e s =
    (ground (arith, e, s), ground (arith, e, s), ground (arith, e, s))
