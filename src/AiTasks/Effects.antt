-- ===== src/AiTasks/Effects.antt =====
-- What the calls on AI tasks and the phases of a run make of the tables, as moves of
-- AiTasks/Moves.antt.
use ai_recruitment.Common.{
  ℕ, ◌+◌, ◌≡◌, ◌⊎◌, refl, inl, inr, Bool, true, false, Option, none, some, List, ◌∷◌, ◌++◌,
  occurrences, ok, Option-cases, Bool-cases, Result-cases, arith,
}
use ai_recruitment.Common.Text.{Text}
use ai_recruitment.Common.Table.{lookup, put}
use ai_recruitment.Offers.Base.{Request}
use ai_recruitment.AiTasks.{
  TaskType, AiTask, TaskDb, is_retryable, is_pending, is_sensitive, save_task, record_audit,
  retry_ai_task, retried_task, cancel_ai_task, cancelled_task, mark_stale_failed_ai_task,
  recovered_task,
}
use ai_recruitment.AiTasks.Worker.{
  TaskOutcome, Claim, claim_task, claim_found, claimed_task, start_attempt, counted_task,
  new_attempt, max_attempt_no,
}
use ai_recruitment.AiTasks.Entries.{
  enter, enter_default, enter_default_found, enter_sensitive, enter_sensitive_found, reroute,
}
use ai_recruitment.AiTasks.System.{claimed_by}
use ai_recruitment.AiTasks.Recovery.{mark_stale_failed_ai_task-ok}
use ai_recruitment.AiTasks.Creation.{new_task, create_ai_task}
use ai_recruitment.AiTasks.Numbering.{Numbers}
use ai_recruitment.AiTasks.Moves.{Ledger, Move}

retry_ai_task-ok :
    (c : Request) (id : ℕ) (db : TaskDb) (r : AiTask × TaskDb)
    → retry_ai_task c id db ≡ ok r
    → (task : AiTask) × (lookup id db.tasks ≡ some task)
      × (is_retryable task.status ≡ true)
      × (r.1.tasks ≡ put id (retried_task c.now task) db.tasks)
      × (r.1.attempts ≡ db.attempts)
unfolding retry_ai_task
retry_ai_task-ok c id db r h = elim (Option-cases (lookup id db.tasks)) [
  | inl n ↦ ground (arith, n, h)
  | inr (task, e) ↦ (task, e, ground (arith, e, h), ground (arith, e, h), ground (arith, e, h))
]

cancel_ai_task-ok :
    (c : Request) (id : ℕ) (reason : Option Text) (db : TaskDb) (r : AiTask × TaskDb)
    → cancel_ai_task c id reason db ≡ ok r
    → (task : AiTask) × (lookup id db.tasks ≡ some task)
      × (is_pending task.status ≡ true)
      × (r.1.tasks ≡ put id (cancelled_task c.now reason task) db.tasks)
      × (r.1.attempts ≡ db.attempts)
unfolding cancel_ai_task
cancel_ai_task-ok c id reason db r h = elim (Option-cases (lookup id db.tasks)) [
  | inl n ↦ ground (arith, n, h)
  | inr (task, e) ↦ (task, e, ground (arith, e, h), ground (arith, e, h), ground (arith, e, h))
]

-- The tables of a database, with the claims under way.
abbrev pub tables : TaskDb → List ℕ → Ledger
tables db claimed = record { tasks = db.tasks; attempts = db.attempts; claimed = claimed }

pub retry_ai_task-Move :
    (c : Request) (id : ℕ) (claimed : List ℕ) (db : TaskDb) (r : AiTask × TaskDb)
    → retry_ai_task c id db ≡ ok r
    → Move (tables db claimed) (tables r.1 claimed)
unfolding retried_task
retry_ai_task-Move c id claimed db r h =
    let (t, e, s, p, q) = retry_ai_task-ok c id db r h in
    rw (p, q)
      (Move.steer id t (retried_task c.now t) e (ground (arith, s))
        (record { same_type = refl; same_count = refl }) refl (λ m. omega arith))

pub cancel_ai_task-Move :
    (c : Request) (id : ℕ) (reason : Option Text) (claimed : List ℕ) (db : TaskDb)
    (r : AiTask × TaskDb)
    → cancel_ai_task c id reason db ≡ ok r
    → Move (tables db claimed) (tables r.1 claimed)
unfolding cancelled_task
cancel_ai_task-Move c id reason claimed db r h =
    let (t, e, s, p, q) = cancel_ai_task-ok c id reason db r h in
    rw (p, q)
      (Move.steer id t (cancelled_task c.now reason t) e (ground (arith, s))
        (record { same_type = refl; same_count = refl }) refl (λ m. ground (arith, m)))

pub recover-Move :
    (c : Request) (id expected : ℕ) (claimed : List ℕ) (db : TaskDb) (r : AiTask × TaskDb)
    → occurrences id claimed ≡ 0
    → mark_stale_failed_ai_task c id expected db ≡ ok r
    → Move (tables db claimed) (tables r.1 claimed)
unfolding recovered_task
recover-Move c id expected claimed db r o h =
    let (t, e, s, p, q) = mark_stale_failed_ai_task-ok c id expected db r h in
    rw (p, q)
      (Move.recover c.now id t (recovered_task c.now t) o e s
        (record { same_type = refl; same_count = refl }) refl refl)

-- A claim takes a pending task, or nothing happens.
claim_task-ok :
    (now id : ℕ) (db : TaskDb) (r : TaskOutcome × TaskDb)
    → claim_task now id db ≡ ok r
    → ((r.1 ≡ db) × ((ids : List ℕ) → claimed_by id r.0 ids ≡ ids))
      ⊎ ((task : AiTask) × (lookup id db.tasks ≡ some task)
          × (is_pending task.status ≡ true)
          × (r.0 ≡ TaskOutcome.claimed)
          × (r.1.tasks ≡ put id (claimed_task now task) db.tasks)
          × (r.1.attempts ≡ db.attempts))
unfolding claim_task claim_found save_task
claim_task-ok now id db r h = elim (Option-cases (lookup id db.tasks)) [
  | inl n ↦ inl (ground (arith, n, h), λ ids. ground (arith, n, h))
  | inr (task, e) ↦ elim (Bool-cases (is_pending task.status)) [
    | inl p ↦
        inr (task, e, p, ground (arith, e, p, h), ground (arith, e, p, h), ground (arith, e, p, h))
    | inr p ↦ inl (ground (arith, e, p, h), λ ids. ground (arith, e, p, h))
  ]
]

claim_task-Move :
    (now id : ℕ) (claimed : List ℕ) (db : TaskDb) (r : TaskOutcome × TaskDb)
    → claim_task now id db ≡ ok r
    → Move (tables db claimed) (tables r.1 (claimed_by id r.0 claimed))
unfolding claimed_task
claim_task-Move now id claimed db r h = elim (claim_task-ok now id db r h) [
  | inl (same, none_new) ↦ rw (same, none_new claimed) Move.rest
  | inr (t, e, p, o, q, w) ↦
      rw (o, q, w)
        (Move.claim id t (claimed_task now t) e p (record { same_type = refl; same_count = refl })
          refl refl)
]

pub start_attempt-ok :
    (now id k : ℕ) (db : TaskDb) (r : Claim × TaskDb)
    → start_attempt now id k db ≡ ok r
    → (t : AiTask) × (lookup id db.tasks ≡ some t)
      × (lookup k db.attempts ≡ none)
      × (r.1.tasks ≡ put id (counted_task now (max_attempt_no id db.attempts + 1) t) db.tasks)
      × (r.1.attempts
          ≡ put k (new_attempt now id (max_attempt_no id db.attempts + 1) t) db.attempts)
unfolding start_attempt save_task
start_attempt-ok now id k db r h = elim (Option-cases (lookup id db.tasks)) [
  | inl n ↦ ground (arith, n, h)
  | inr (t, e) ↦ elim (Option-cases (lookup k db.attempts)) [
    | inr (a, f) ↦ ground (arith, e, f, h)
    | inl n ↦ (t, e, n, ground (arith, e, n, h), ground (arith, e, n, h))
  ]
]

-- With a fresh key the next attempt violates no constraint, if the attempts are numbered.
pub start_attempt_total :
    (now id k m : ℕ) (t : AiTask) (db : TaskDb)
    → lookup id db.tasks ≡ some t
    → lookup k db.attempts ≡ none
    → Numbers id db.attempts m
    → (r : Claim × TaskDb) × (start_attempt now id k db ≡ ok r)
      × (r.0 ≡ record {
        attempt_id = k;
        attempt_no = m + 1;
        retry_cycle_no = t.retry_cycle_no;
        cycle_attempt_no = t.cycle_attempt_count + 1;
        task = counted_task now (m + 1) t;
        attempt = new_attempt now id (m + 1) t;
      })
unfolding start_attempt save_task
start_attempt_total now id k m t db e n v = elim (Result-cases (start_attempt now id k db)) [
  | inl (x, q) ↦ (x, q, ground (arith, q, e, n, v.highest))
  | inr (y, q) ↦ ground (arith, q, e, n, v.highest, v.once (m + 1))
]

pub start_attempt-Move :
    (now id k : ℕ) (before behind : List ℕ) (db : TaskDb) (r : Claim × TaskDb)
    → start_attempt now id k db ≡ ok r
    → Move (tables db (before ++ id ∷ behind)) (tables r.1 (before ++ behind))
unfolding counted_task new_attempt
start_attempt-Move now id k before behind db r h =
    let (t, e, n, p, q) = start_attempt-ok now id k db r h in
    let m = max_attempt_no id db.attempts + 1 in
    rw (p, q)
      (Move.start id k t (counted_task now m t) (new_attempt now id m t) before behind refl e n refl
        refl refl refl refl refl refl)

-- What the two entries do to the tables: a claim, or nothing.
enter-ok :
    (sensitive : Bool) (now id : ℕ) (broken : Option Text) (db : TaskDb) (r : TaskOutcome × TaskDb)
    → enter sensitive now id broken db ≡ ok r
    → (claim_task now id db ≡ ok r)
      ⊎ ((r.1.tasks ≡ db.tasks)
          × (r.1.attempts ≡ db.attempts)
          × ((ids : List ℕ) → claimed_by id r.0 ids ≡ ids))
unfolding enter enter_default enter_default_found enter_sensitive enter_sensitive_found reroute
    record_audit
enter-ok true now id broken db r h = elim (Option-cases (lookup id db.tasks)) [
  | inl n ↦ inr (ground (arith, n, h), ground (arith, n, h), λ ids. ground (arith, n, h))
  | inr (t, e) ↦ elim (Bool-cases (is_sensitive t.task_type)) [
    | inl s ↦ inl (ground (arith, e, s, h))
    | inr s ↦ inr (ground (arith, e, s, h), ground (arith, e, s, h), λ ids. ground (arith, e, s, h))
  ]
]
enter-ok false now id broken db r h = elim (Option-cases (lookup id db.tasks)) [
  | inl n ↦ inl (ground (arith, n, h))
  | inr (t, e) ↦ elim (Bool-cases (is_sensitive t.task_type)) [
    | inl s ↦ elim (Option-cases broken) [
      | inl b ↦ inr (
        ground (arith, e, s, h, b),
        ground (arith, e, s, h, b),
        λ ids. ground (arith, e, s, h, b),
      )
      | inr (w, b) ↦ inr (
        ground (arith, e, s, h, b),
        ground (arith, e, s, h, b),
        λ ids. ground (arith, e, s, h, b),
      )
    ]
    | inr s ↦ inl (ground (arith, e, s, h))
  ]
]

pub enter-Move :
    (sensitive : Bool) (now id : ℕ) (broken : Option Text) (claimed : List ℕ) (db : TaskDb)
    (r : TaskOutcome × TaskDb)
    → enter sensitive now id broken db ≡ ok r
    → Move (tables db claimed) (tables r.1 (claimed_by id r.0 claimed))
enter-Move sensitive now id broken claimed db r h = elim (enter-ok sensitive now id broken db r h) [
  | inl w ↦ claim_task-Move now id claimed db r w
  | inr (p, q, o) ↦ rw (p, q, o claimed) Move.rest
]

pub create_ai_task-Move :
    (c : Request) (id job_id : ℕ) (task_type : TaskType) (claimed : List ℕ) (db : TaskDb)
    (r : AiTask × TaskDb)
    → create_ai_task c id task_type job_id db ≡ ok r
    → Move (tables db claimed) (tables r.1 claimed)
unfolding create_ai_task new_task save_task
create_ai_task-Move c id job_id task_type claimed db r h =
    elim (Option-cases (lookup id db.tasks)) [
      | inr (t, e) ↦ ground (arith, e, h)
      | inl n ↦
          let t = new_task c.now task_type job_id in
          let p : r.1.tasks ≡ put id t db.tasks = ground (arith, n, h) in
          let q : r.1.attempts ≡ db.attempts = ground (arith, n, h) in
          rw (p, q) (Move.create id t n refl refl refl)
    ]
