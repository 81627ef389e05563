-- ===== src/AiTasks/Routing.antt =====
-- Which entry of the AI worker takes which task (backend/app/workers/ai_tasks.py).
use ai_recruitment.Common.{
  ℕ, ◌≡◌, ◌↔◌, refl, Bool, true, false, Option, none, some, [], ◌∷◌, ◌++◌, ok, Result-cases, inl,
  inr, arith,
}
use ai_recruitment.Common.Text.{Text}
use ai_recruitment.Common.Table.{lookup, put, lookup-put_self}
use ai_recruitment.AiTasks.{AiTask, TaskDb, is_pending, is_sensitive, save_task, record_audit}
use ai_recruitment.AiTasks.Worker.{TaskOutcome, claim_task, claim_found, claimed_task, claimed}
use ai_recruitment.AiTasks.Entries.{
  enter, enter_default, enter_default_found, enter_sensitive, enter_sensitive_found, reroute,
}

-- A message for a task always comes to a result, and it claims the task exactly if the task is
-- pending and its type belongs to the message's queue.
pub enter-claims_iff :
    (sensitive : Bool) (now id : ℕ) (broken : Option Text) (task : AiTask) (db : TaskDb)
    → lookup id db.tasks ≡ some task
    → (r : TaskOutcome × TaskDb) × (enter sensitive now id broken db ≡ ok r)
      × ((r.0 ≡ claimed)
          ↔ ((is_pending task.status ≡ true) × (is_sensitive task.task_type ≡ sensitive)))
unfolding enter enter_default enter_default_found enter_sensitive enter_sensitive_found claim_task
    claim_found reroute save_task record_audit
enter-claims_iff true now id broken task db e = elim (Result-cases (enter true now id broken db)) [
  | inl (r, q) ↦ (r, q, (λ c. ground (arith, c, q, e), λ (p, s). ground (arith, p, s, q, e)))
  | inr (y, q) ↦ ground (arith, q, e)
]
enter-claims_iff false now id broken task db e =
    elim (Result-cases (enter false now id broken db)) [
      | inl (r, q) ↦ (r, q, (λ c. ground (arith, c, q, e), λ (p, s). ground (arith, p, s, q, e)))
      | inr (y, q) ↦ ground (arith, q, e)
    ]

-- A message for a pending interview task that comes to the default queue is sent once more, to the
-- sensitive queue, without a change to the task; taken from there, it claims the task.
pub reroute-enter :
    (now now' id : ℕ) (broken : Option Text) (task : AiTask) (db : TaskDb)
    → lookup id db.tasks ≡ some task
    → is_pending task.status ≡ true
    → is_sensitive task.task_type ≡ true
    → (r r' : TaskOutcome × TaskDb) × (enter false now id none db ≡ ok r)
      × (r.1.queue ≡ db.queue ++ (id, true) ∷ [])
      × (r.1.tasks ≡ db.tasks)
      × (r.1.attempts ≡ db.attempts)
      × (enter true now' id broken r.1 ≡ ok r')
      × (r'.0 ≡ claimed)
      × (lookup id r'.1.tasks ≡ some (claimed_task now' task))
unfolding enter enter_default enter_default_found enter_sensitive enter_sensitive_found claim_task
    claim_found reroute save_task record_audit
reroute-enter now now' id broken task db e p s =
    let db₁ : TaskDb = record db { queue = db.queue ++ (id, true) ∷ [] } in
    let t = claimed_task now' task in
    (
      (TaskOutcome.rerouted, db₁),
      (claimed, record db₁ { tasks = put id t db.tasks }),
      ground (arith, e, s),
      refl,
      refl,
      refl,
      ground (arith, e, p, s),
      refl,
      lookup-put_self id t db.tasks,
    )
