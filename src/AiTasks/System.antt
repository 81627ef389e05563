-- ===== src/AiTasks/System.antt =====
-- The calls of backend/app/services/ai_tasks.py and any number of runs of the worker
-- (backend/app/workers/ai_tasks.py), transaction by transaction, in any order. A claim and the
-- attempt after it are two transactions of one worker. Recovery waits for five minutes, so it never
-- comes between the two, unless the worker has died there.
pub mod Runs
use ai_recruitment.Common.{
  ℕ, ◌≡◌, refl, Bool, Option, none, some, List, [], ◌∷◌, ◌++◌, occurrences, Result, ok,
}
use ai_recruitment.Common.Text.{Text}
use ai_recruitment.Common.Table.{lookup, put}
use ai_recruitment.Offers.Base.{Request}
use ai_recruitment.AiTasks.{
  TaskType, AiTask, AiTaskAttempt, TaskDb, retry_ai_task, cancel_ai_task, mark_stale_failed_ai_task,
}
use ai_recruitment.AiTasks.Worker.{Answer, Persisted, Claim, TaskOutcome, start_attempt}
use ai_recruitment.AiTasks.Settle.{settle}
use ai_recruitment.AiTasks.Entries.{enter}
use ai_recruitment.AiTasks.Creation.{new_task, create_ai_task}
use ai_recruitment.AiTasks.Moves.{Ledger}

-- The committed database, and the tasks that a worker has claimed and not yet given an attempt.
pub record World : Type 0 where
  pub db : TaskDb
  pub claimed : List ℕ

abbrev pub ledger : World → Ledger
ledger w = record { tasks = w.db.tasks; attempts = w.db.attempts; claimed = w.claimed }

abbrev pub claimed_by : ℕ → TaskOutcome → List ℕ → List ℕ
claimed_by id TaskOutcome.claimed ids = id ∷ ids
claimed_by id _ ids = ids

-- One committed transaction, or the death of a worker. One that fails leaves the world as it is.
pub data Step : World → World → Type 0 where
  create :
      (c : Request) (id job_id : ℕ) (task_type : TaskType) (r : AiTask × TaskDb) {w : World}
      → create_ai_task c id task_type job_id w.db ≡ ok r
      → Step w (record w { db = r.1 })
  -- Another service adds a task for a resume or an interview.
  insert :
      (now id business_id : ℕ) (task_type : TaskType) {w : World}
      → lookup id w.db.tasks ≡ none
      → Step w (record w {
        db = record w.db { tasks = put id (new_task now task_type business_id) w.db.tasks };
      })
  retry :
      (c : Request) (id : ℕ) (r : AiTask × TaskDb) {w : World}
      → retry_ai_task c id w.db ≡ ok r
      → Step w (record w { db = r.1 })
  cancel :
      (c : Request) (id : ℕ) (reason : Option Text) (r : AiTask × TaskDb) {w : World}
      → cancel_ai_task c id reason w.db ≡ ok r
      → Step w (record w { db = r.1 })
  recover :
      (c : Request) (id expected : ℕ) (r : AiTask × TaskDb) {w : World}
      → occurrences id w.claimed ≡ 0
      → mark_stale_failed_ai_task c id expected w.db ≡ ok r
      → Step w (record w { db = r.1 })
  enter_queue :
      (sensitive : Bool) (now id : ℕ) (broken : Option Text) (r : TaskOutcome × TaskDb) {w : World}
      → enter sensitive now id broken w.db ≡ ok r
      → Step w (record { db = r.1; claimed = claimed_by id r.0 w.claimed })
  start_next :
      (now id attempt_id : ℕ) (before behind : List ℕ) (r : Claim × TaskDb) {w : World}
      → w.claimed ≡ before ++ id ∷ behind
      → start_attempt now id attempt_id w.db ≡ ok r
      → Step w (record { db = r.1; claimed = before ++ behind })
  settle_next :
      (now id : ℕ) (claim : Claim) (answer : Answer) (persisted : Persisted) (a : AiTaskAttempt)
      (r : TaskOutcome × TaskDb) {w : World}
      → lookup claim.attempt_id w.db.attempts ≡ some a
      → a.task_id ≡ id
      → settle now id claim answer persisted w.db ≡ ok r
      → Step w (record w { db = r.1 })
  die :
      (id : ℕ) (before behind : List ℕ) {w : World}
      → w.claimed ≡ before ++ id ∷ behind
      → Step w (record w { claimed = before ++ behind })

pub data Run : World → World → Type 0 where
  begin : {w : World} → Run w w
  next : {w₀ w w' : World} → Run w₀ w → Step w w' → Run w₀ w'

-- The worker that comes back finds task and attempt as it left them. Cancellation takes pending tasks
-- only, so what changes them during a run is the recovery of a task whose worker is still alive.
unfoldable pub IsTimely : {w w' : World} → Step w w' → Type 0
IsTimely {w} (Step.settle_next now id claim answer persisted a r f i h) =
    (lookup id w.db.tasks ≡ some claim.task)
    × (lookup claim.attempt_id w.db.attempts ≡ some claim.attempt)
IsTimely _ = Unit {0}

-- A run in which every worker that comes back is timely.
pub data TimelyRun (w₀ : World) : World → Type 0 where
  start : TimelyRun w₀ w₀
  further : {w w' : World} → TimelyRun w₀ w → (s : Step w w') → IsTimely s → TimelyRun w₀ w'
