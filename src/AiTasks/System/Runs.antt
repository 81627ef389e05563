-- ===== src/AiTasks/System/Runs.antt =====
-- Every run of the system of AiTasks/System.antt only makes the moves of AiTasks/Moves.antt, and
-- what follows for a task.
use ai_recruitment.Common.{ℕ, ◌+◌, ◌≤◌, ◌≡◌, refl, true, none, some, [], ◌∷◌, ◌++◌, bit, ok, arith}
use ai_recruitment.Common.Table.{Table, lookup, count, update_rows, lookup-put_self}
use ai_recruitment.Offers.Base.{Request}
use ai_recruitment.AiTasks.{
  AiTask, AiTaskAttempt, TaskDb, TaskStatus, Handoff, is_running, is_pending, recovered_task,
  recovered_attempt, mark_stale_failed_ai_task,
}
use ai_recruitment.AiTasks.Worker.{
  Answer, ProviderOutcome, Persisted, Claim, TaskOutcome, ai_task_max_attempts, start_attempt,
  succeeded_task,
}
use ai_recruitment.AiTasks.Creation.{new_task}
use ai_recruitment.AiTasks.Settle.{settle}
use ai_recruitment.AiTasks.Recovery.{runs_for, mark_stale_failed_ai_task-ok}
use ai_recruitment.AiTasks.Moves.{Ledger, Move, TaskChange}
use ai_recruitment.AiTasks.Soundness.{IsSound, Move-IsSound}
use ai_recruitment.AiTasks.Numbering.{IsNumbered, TaskChange-IsNumbered}
use ai_recruitment.AiTasks.Effects.{
  start_attempt_total, retry_ai_task-Move, cancel_ai_task-Move, recover-Move, enter-Move,
  start_attempt-Move, create_ai_task-Move,
}
use ai_recruitment.AiTasks.Settle.Effects.{settle-Move, settle-TaskChange, settle-succeeded}
use ai_recruitment.AiTasks.System.{
  World, ledger, Step, Run, begin, next, IsTimely, TimelyRun, start, further,
}

-- Each transaction makes one change.
pub Step-TaskChange : {w w' : World} → Step w w' → TaskChange (ledger w) (ledger w')
unfolding new_task
Step-TaskChange {w} (Step.create c id j y r h) =
    TaskChange.by (create_ai_task-Move c id j y w.claimed w.db r h)
Step-TaskChange {w} (Step.insert now id b y n) =
    TaskChange.by (Move.create id (new_task now y b) n refl refl refl)
Step-TaskChange {w} (Step.retry c id r h) =
    TaskChange.by (retry_ai_task-Move c id w.claimed w.db r h)
Step-TaskChange {w} (Step.cancel c id reason r h) =
    TaskChange.by (cancel_ai_task-Move c id reason w.claimed w.db r h)
Step-TaskChange {w} (Step.recover c id expected r o h) =
    TaskChange.by (recover-Move c id expected w.claimed w.db r o h)
Step-TaskChange {w} (Step.enter_queue s now id b r h) =
    TaskChange.by (enter-Move s now id b w.claimed w.db r h)
Step-TaskChange {w} (Step.start_next now id k before behind r o h) =
    rw o (TaskChange.by (start_attempt-Move now id k before behind w.db r h))
Step-TaskChange {w} (Step.settle_next now id claim answer persisted a r f i h) =
    settle-TaskChange now id claim answer persisted a w.claimed w.db r f i h
Step-TaskChange {w} (Step.die id before behind o) = TaskChange.by (Move.abandon id before behind o)

-- A transaction of a run in which the workers are timely is a move.
Step-Move : {w w' : World} (s : Step w w') → IsTimely s → Move (ledger w) (ledger w')
unfolding new_task IsTimely
Step-Move {w} (Step.create c id j y r h) _ = create_ai_task-Move c id j y w.claimed w.db r h
Step-Move {w} (Step.insert now id b y n) _ = Move.create id (new_task now y b) n refl refl refl
Step-Move {w} (Step.retry c id r h) _ = retry_ai_task-Move c id w.claimed w.db r h
Step-Move {w} (Step.cancel c id reason r h) _ = cancel_ai_task-Move c id reason w.claimed w.db r h
Step-Move {w} (Step.recover c id expected r o h) _ = recover-Move c id expected w.claimed w.db r o h
Step-Move {w} (Step.enter_queue s now id b r h) _ = enter-Move s now id b w.claimed w.db r h
Step-Move {w} (Step.start_next now id k before behind r o h) _ =
    rw o (start_attempt-Move now id k before behind w.db r h)
Step-Move {w} (Step.settle_next now id claim answer persisted a r f i h) (e, g) =
    settle-Move now id claim answer persisted a w.claimed w.db r f i e g h
Step-Move {w} (Step.die id before behind o) _ = Move.abandon id before behind o

-- What every change keeps, a run keeps.
Run-keep :
    (P : Ledger → Type 0)
    → ((l l' : Ledger) → TaskChange l l' → P l → P l')
    → {w₀ w : World} → Run w₀ w
    → P (ledger w₀)
    → P (ledger w)
Run-keep P m begin h = h
Run-keep P m (next {w₀} {w} {w'} r s) h =
    m (ledger w) (ledger w') (Step-TaskChange s) (Run-keep P m r h)

-- The starting world: no claim is under way, no task runs too often, and attempts are numbered. The
-- empty one is the simplest.
pub record IsStart (w : World) : Type 0 where
  pub sound : (k : ℕ) → IsSound k (ledger w)
  pub numbered : (k : ℕ) → IsNumbered k (ledger w)

TimelyRun-IsSound :
    {w₀ w : World} (k : ℕ) → TimelyRun w₀ w → IsSound k (ledger w₀) → IsSound k (ledger w)
TimelyRun-IsSound k start h = h
TimelyRun-IsSound k (further r s t) h = Move-IsSound k (Step-Move s t) (TimelyRun-IsSound k r h)

-- From a start, however calls and any number of worker runs interleave, if every worker that comes
-- back finds its task and its attempt as it left them, then a task has at most one running attempt,
-- and only while the task itself runs; the attempts of its retry cycle never exceed three, and a
-- pending task always has one left.
pub Run-Sound :
    (w₀ w : World) (k : ℕ) (task : AiTask)
    → IsStart w₀
    → TimelyRun w₀ w
    → lookup k w.db.tasks ≡ some task
    → (count (runs_for k) w.db.attempts ≤ bit (is_running task.status))
      × (task.cycle_attempt_count + bit (is_pending task.status) ≤ ai_task_max_attempts)
unfolding IsSound
Run-Sound w₀ w k task s r e =
    let v = (TimelyRun-IsSound k r (s.sound k)).0 task e in
    (omega (arith, v.one_run), omega (arith, v.in_limit))

-- From a start, however calls and any number of worker runs interleave, a claimed task always gets
-- its attempt: with a fresh key the insertion violates no constraint, and the attempt's number
-- follows the number of attempts that the task counts.
pub Run-start_attempt :
    (w₀ w : World) (now id k : ℕ) (task : AiTask)
    → IsStart w₀
    → Run w₀ w
    → lookup id w.db.tasks ≡ some task
    → lookup k w.db.attempts ≡ none
    → (r : Claim × TaskDb) × (start_attempt now id k w.db ≡ ok r)
      × (r.0.attempt_no ≡ task.attempt_count + 1)
      × (r.0.cycle_attempt_no ≡ task.cycle_attempt_count + 1)
unfolding IsNumbered
Run-start_attempt w₀ w now id k task s r e n =
    let v =
      (Run-keep (IsNumbered id) (λ l l' m. TaskChange-IsNumbered id m) r (s.numbered id)).0 task
        e in
    let (x, q, f) = start_attempt_total now id k task.attempt_count task w.db e n v in
    (x, q, rw f refl, rw f refl)

lookup-recovered :
    (now id j : ℕ) (a : AiTaskAttempt) (t : Table AiTaskAttempt)
    → lookup j t ≡ some a
    → lookup j (update_rows (recovered_attempt now id) t) ≡ some (recovered_attempt now id a)
unfolding lookup update_rows
lookup-recovered now id j a [] e = ground (arith, e)
lookup-recovered now id j a ((i, b) ∷ t) e = ground (arith, e, lookup-recovered now id j a t)

-- A worker that holds task and attempt as running does not notice that the task was recovered: with
-- a result that the provider has given and that is stored, it makes the failed task succeed, and hands
-- the result over.
pub recovered-settled :
    (c : Request) (id expected now : ℕ) (claim : Claim) (outcome : ProviderOutcome)
    (a : AiTaskAttempt) (db : TaskDb) (r : AiTask × TaskDb)
    → lookup claim.attempt_id db.attempts ≡ some a
    → mark_stale_failed_ai_task c id expected db ≡ ok r
    → claim.task.status ≡ TaskStatus.running
    → claim.attempt.status ≡ TaskStatus.running
    → outcome.succeeded ≡ true
    → outcome.has_result ≡ true
    → (before after : AiTask) × (x : TaskOutcome × TaskDb) × (lookup id r.1.tasks ≡ some before)
      × (before.status ≡ TaskStatus.failed)
      × (settle now id claim (Answer.answered outcome) Persisted.stored r.1 ≡ ok x)
      × (lookup id x.1.tasks ≡ some after)
      × (after.status ≡ TaskStatus.succeeded)
      × (x.1.handoffs ≡ r.1.handoffs ++ (id, Handoff.result_stored) ∷ [])
recovered-settled c id expected now claim outcome a db r f h s s' o y =
    let (t, e, _, p, m) = mark_stale_failed_ai_task-ok c id expected db r h in
    let before = recovered_task c.now t in
    let b = recovered_attempt c.now id a in
    let g : lookup id r.1.tasks ≡ some before = rw p (lookup-put_self id before db.tasks) in
    let l : lookup claim.attempt_id r.1.attempts ≡ some b =
      rw m (lookup-recovered c.now id claim.attempt_id a db.attempts f) in
    let (x, q, w, z) = settle-succeeded now id claim outcome before b r.1 g l s s' o y in
    (
      before,
      succeeded_task now before,
      x,
      g,
      unfold recovered_task in refl,
      q,
      rw w (lookup-put_self id (succeeded_task now before) r.1.tasks),
      unfold succeeded_task in refl,
      z,
    )
