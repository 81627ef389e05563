-- ===== src/AiTasks/Settle/Effects.antt =====
-- What the end of a run of the AI worker makes of its task and its attempt
-- (backend/app/workers/ai_tasks.py).
use ai_recruitment.Common.{
  ℕ, ◌+◌, ◌≤◌, ◌≡◌, ◌⊎◌, refl, inl, inr, Bool, true, false, ◌&&◌, ◌||◌, not, Option, some, List, [],
  ◌∷◌, ◌++◌, ok, Option-cases, Bool-cases, Result-cases, arith,
}
use ai_recruitment.Common.Text.{codes}
use ai_recruitment.Common.Table.{lookup, put}
use ai_recruitment.AiTasks.{
  TaskStatus, Handoff, AiTask, AiTaskAttempt, TaskDb, is_pending, is_running, is_sensitive,
  save_task,
}
use ai_recruitment.AiTasks.Worker.{
  TaskOutcome, Claim, Answer, ProviderOutcome, Persisted, Verdict, ai_task_max_attempts,
  is_cancelled, outcome_of, should_auto_retry, finished_task, finished_attempt, succeeded_task,
  succeeded_attempt, rescheduled_task, late_task, late_attempt, is_code, is_unloaded,
}
use ai_recruitment.AiTasks.Settle.{
  settle, settle_owned, settle_result, finish, finish_succeeded, reschedule, after_task_success,
  after_task_failure, hand_off, save_attempt, provider_failure, output_rejected, persist_failed,
}
use ai_recruitment.AiTasks.Moves.{Keeps, Ends, Move, TaskChange}
use ai_recruitment.AiTasks.Effects.{tables}

-- Whether a run returned that it will be tried again.
abbrev pub is_scheduled : TaskOutcome → Bool
is_scheduled (TaskOutcome.retry_scheduled countdown attempt_no retry_cycle_no cycle_attempt_no) =
    true
is_scheduled _ = false

-- The rows that a run leaves behind when it ends as the owner of its task.
pub record Ended (id k cycle : ℕ) (t : AiTask) (a : AiTaskAttempt) (db : TaskDb)
    (r : TaskOutcome × TaskDb) : Type 0 where
  pub task : AiTask
  pub attempt : AiTaskAttempt
  pub keeps : Keeps t task
  pub ends : Ends a attempt
  pub over : is_running task.status ≡ false
  pub same_cycle : task.cycle_attempt_count ≡ t.cycle_attempt_count
  pub again : is_pending task.status ≡ true → cycle + 1 ≤ ai_task_max_attempts
  pub scheduled : is_scheduled r.0 ≡ is_pending task.status
  pub tasks : r.1.tasks ≡ put id task db.tasks
  pub attempts : r.1.attempts ≡ put k attempt db.attempts

-- A status that ends a run for good.
abbrev pub is_last : TaskStatus → Bool
is_last status = not (is_running status) && not (is_pending status)

finish-Ended :
    (now id : ℕ) (claim : Claim) (http_status : Option ℕ) (notify : Bool) (v : Verdict) (t : AiTask)
    (a : AiTaskAttempt) (db : TaskDb) (r : TaskOutcome × TaskDb)
    → is_last v.status ≡ true
    → finish now id claim http_status notify v t a db ≡ ok r
    → Ended id claim.attempt_id claim.task.cycle_attempt_count t a db r
unfolding finish finished_task finished_attempt save_task save_attempt after_task_failure hand_off
finish-Ended now id claim http_status notify v t a db r l h = record {
  task = finished_task now v t;
  attempt = finished_attempt now http_status v a;
  keeps = record { same_type = refl; same_count = refl };
  ends = record { same_task = refl; same_no = refl; over = ground (arith, l) };
  over = ground (arith, l);
  same_cycle = refl;
  again = λ p. ground (arith, l, p);
  scheduled = ground (arith, h, l);
  tasks = ground (arith, h);
  attempts = ground (arith, h);
}

finish_succeeded-Ended :
    (now id : ℕ) (claim : Claim) (http_status : Option ℕ) (t : AiTask) (a : AiTaskAttempt)
    (db : TaskDb) (r : TaskOutcome × TaskDb)
    → finish_succeeded now id claim http_status t a db ≡ ok r
    → Ended id claim.attempt_id claim.task.cycle_attempt_count t a db r
unfolding finish_succeeded succeeded_task succeeded_attempt save_task save_attempt hand_off
finish_succeeded-Ended now id claim http_status t a db r h = record {
  task = succeeded_task now t;
  attempt = succeeded_attempt now http_status a;
  keeps = record { same_type = refl; same_count = refl };
  ends = record { same_task = refl; same_no = refl; over = refl };
  over = refl;
  same_cycle = refl;
  again = λ p. ground (arith, p);
  scheduled = ground (arith, h);
  tasks = ground (arith, h);
  attempts = ground (arith, h);
}

reschedule-Ended :
    (now id : ℕ) (claim : Claim) (http_status : Option ℕ) (v : Verdict) (t : AiTask)
    (a : AiTaskAttempt) (db : TaskDb) (r : TaskOutcome × TaskDb)
    → is_running v.status ≡ false
    → should_auto_retry v.error_category claim.task.cycle_attempt_count ≡ true
    → reschedule now id claim http_status v t a db ≡ ok r
    → Ended id claim.attempt_id claim.task.cycle_attempt_count t a db r
unfolding reschedule rescheduled_task finished_attempt save_task save_attempt should_auto_retry
reschedule-Ended now id claim http_status v t a db r l s h = record {
  task = rescheduled_task now v claim.task t;
  attempt = finished_attempt now http_status v a;
  keeps = record { same_type = refl; same_count = refl };
  ends = record { same_task = refl; same_no = refl; over = l };
  over = refl;
  same_cycle = refl;
  again = λ p. ground (arith, s);
  scheduled = ground (arith, h);
  tasks = ground (arith, h);
  attempts = ground (arith, h);
}

settle_result-Ended :
    (now id : ℕ) (claim : Claim) (http_status : Option ℕ) (persisted : Persisted) (t : AiTask)
    (a : AiTaskAttempt) (db : TaskDb) (r : TaskOutcome × TaskDb)
    → settle_result now id claim http_status persisted t a db ≡ ok r
    → Ended id claim.attempt_id claim.task.cycle_attempt_count t a db r
unfolding settle_result output_rejected persist_failed
settle_result-Ended now id claim http_status Persisted.stored t a db r h =
    finish_succeeded-Ended now id claim http_status t a db r h
settle_result-Ended now id claim http_status (Persisted.invalid e) t a db r h =
    finish-Ended now id claim http_status (not (is_sensitive t.task_type)) (output_rejected e) t a
      db r refl h
settle_result-Ended now id claim http_status (Persisted.crashed e) t a db r h =
    finish-Ended now id claim http_status false (persist_failed e) t a db r refl h

pub settle_owned-Ended :
    (now id : ℕ) (claim : Claim) (answer : Answer) (persisted : Persisted) (t : AiTask)
    (a : AiTaskAttempt) (db : TaskDb) (r : TaskOutcome × TaskDb)
    → settle_owned now id claim answer persisted t a db ≡ ok r
    → Ended id claim.attempt_id claim.task.cycle_attempt_count t a db r
unfolding settle_owned provider_failure
settle_owned-Ended now id claim answer persisted t a db r h =
    let o = outcome_of answer in
    let n = not (is_sensitive t.task_type) in
    elim (Bool-cases (o.succeeded && o.has_result)) [
      | inl p ↦
          settle_result-Ended now id claim o.http_status (after_task_success t.task_type persisted)
            t a db r (ground (arith, p, h))
      | inr p ↦
          elim (Bool-cases
            (is_code o.error_code (codes "output_validation_failed") || is_unloaded answer)) [
              | inl q ↦
                  finish-Ended now id claim o.http_status n
                    (provider_failure TaskStatus.output_invalid o) t a db r refl
                    (ground (arith, p, q, h))
              | inr q ↦
                  elim (Bool-cases (
                    should_auto_retry (provider_failure TaskStatus.failed o).error_category
                      claim.task.cycle_attempt_count)) [
                        | inl s ↦
                            reschedule-Ended now id claim o.http_status
                              (provider_failure TaskStatus.failed o) t a db r refl s
                              (ground (arith, p, q, s, h))
                        | inr s ↦
                            finish-Ended now id claim o.http_status n
                              (provider_failure TaskStatus.failed o) t a db r refl
                              (ground (arith, p, q, s, h))
                      ]
            ]
    ]

-- A run that comes back: without the ownership nothing is committed, for a cancelled task the
-- attempt ends late, and else the owner ends task and attempt.
pub settle-ok :
    (now id : ℕ) (claim : Claim) (answer : Answer) (persisted : Persisted) (t : AiTask)
    (a : AiTaskAttempt) (db : TaskDb) (r : TaskOutcome × TaskDb)
    → lookup id db.tasks ≡ some t
    → lookup claim.attempt_id db.attempts ≡ some a
    → settle now id claim answer persisted db ≡ ok r
    → ((r.1 ≡ db) × (is_running claim.task.status && is_running claim.attempt.status ≡ false))
      ⊎ ((is_cancelled claim.task.status ≡ true)
          × (r.1.tasks ≡ put id (late_task now t) db.tasks)
          × (r.1.attempts
              ≡ put claim.attempt_id
                  (late_attempt now (outcome_of answer).http_status a)
                  db.attempts)
          × (r.1.queue ≡ db.queue)
          × (r.1.handoffs ≡ db.handoffs))
      ⊎ ((is_running claim.task.status && is_running claim.attempt.status ≡ true)
          × Ended id claim.attempt_id claim.task.cycle_attempt_count t a db r)
unfolding settle save_task save_attempt
settle-ok now id claim answer persisted t a db r e f h =
    elim (Bool-cases (is_cancelled claim.task.status)) [
      | inl c ↦ inr (
          inl (
            c,
            ground (arith, c, e, f, h),
            ground (arith, c, e, f, h),
            ground (arith, c, e, f, h),
            ground (arith, c, e, f, h),
          ))
      | inr c ↦
          elim (Bool-cases (is_running claim.task.status && is_running claim.attempt.status)) [
            | inl o ↦ inr (
                inr (
                  o,
                  settle_owned-Ended now id claim answer persisted t a db r
                      (ground (arith, c, o, e, f, h)),
                ))
            | inr o ↦ inl (ground (arith, c, o, e, f, h), o)
          ]
    ]

pub settle-Move :
    (now id : ℕ) (claim : Claim) (answer : Answer) (persisted : Persisted) (a : AiTaskAttempt)
    (claimed : List ℕ) (db : TaskDb) (r : TaskOutcome × TaskDb)
    → lookup claim.attempt_id db.attempts ≡ some a
    → a.task_id ≡ id
    → lookup id db.tasks ≡ some claim.task
    → lookup claim.attempt_id db.attempts ≡ some claim.attempt
    → settle now id claim answer persisted db ≡ ok r
    → Move (tables db claimed) (tables r.1 claimed)
unfolding settle late_task late_attempt
settle-Move now id claim answer persisted a claimed db r f i e g h =
    let k = claim.attempt_id in
    let t = claim.task in
    let same : claim.attempt ≡ a = ground (arith, f, g) in
    elim (settle-ok now id claim answer persisted t a db r e f h) [
      | inl (x, o) ↦ rw x Move.rest
      | inr (inl (c, p, q, m, n)) ↦
          rw (p, q)
            (Move.late id k t (late_task now t) a
              (late_attempt now (outcome_of answer).http_status a) e f i (ground (arith, c))
              (record { same_type = refl; same_count = refl })
              (record { same_task = refl; same_no = refl; over = refl }) refl refl)
      | inr (inr (o, w)) ↦
          rw (w.tasks, w.attempts)
            (Move.settle id k t w.task a w.attempt e f i (ground (arith, o))
              (ground (arith, o, same)) w.keeps w.ends w.over w.same_cycle w.again)
    ]

-- What a worker that comes back changes, whatever has become of its task and its attempt.
pub settle-TaskChange :
    (now id : ℕ) (claim : Claim) (answer : Answer) (persisted : Persisted) (a : AiTaskAttempt)
    (claimed : List ℕ) (db : TaskDb) (r : TaskOutcome × TaskDb)
    → lookup claim.attempt_id db.attempts ≡ some a
    → a.task_id ≡ id
    → settle now id claim answer persisted db ≡ ok r
    → TaskChange (tables db claimed) (tables r.1 claimed)
unfolding settle late_task late_attempt
settle-TaskChange now id claim answer persisted a claimed db r f i h =
    let k = claim.attempt_id in
    elim (Option-cases (lookup id db.tasks)) [
      | inl n ↦ ground (arith, n, h)
      | inr (t, e) ↦ elim (settle-ok now id claim answer persisted t a db r e f h) [
        | inl (same, o) ↦ rw same (TaskChange.by Move.rest)
        | inr (inl (c, p, q, m, n)) ↦
            rw (p, q)
              (TaskChange.overwrite id k t (late_task now t) a
                (late_attempt now (outcome_of answer).http_status a) e f i
                (record { same_type = refl; same_count = refl })
                (record { same_task = refl; same_no = refl; over = refl }))
        | inr (inr (o, w)) ↦
            rw (w.tasks, w.attempts)
              (TaskChange.overwrite id k t w.task a w.attempt e f i w.keeps w.ends)
      ]
    ]

settle_result_total :
    (now id : ℕ) (claim : Claim) (http_status : Option ℕ) (persisted : Persisted) (t : AiTask)
    (a : AiTaskAttempt) (db : TaskDb)
    → (r : TaskOutcome × TaskDb) × (settle_result now id claim http_status persisted t a db ≡ ok r)
unfolding settle_result finish finish_succeeded after_task_failure save_task save_attempt hand_off
settle_result_total now id claim http_status persisted t a db =
    elim (Result-cases (settle_result now id claim http_status persisted t a db)) [
      | inl w ↦ w
      | inr (y, w) ↦ ground (arith, w)
    ]

-- The end of a run comes to a result, whatever the provider answered.
pub settle_total :
    (now id : ℕ) (claim : Claim) (answer : Answer) (persisted : Persisted) (t : AiTask)
    (a : AiTaskAttempt) (db : TaskDb)
    → lookup id db.tasks ≡ some t
    → lookup claim.attempt_id db.attempts ≡ some a
    → (r : TaskOutcome × TaskDb) × (settle now id claim answer persisted db ≡ ok r)
unfolding settle settle_owned finish reschedule after_task_failure save_task save_attempt hand_off
settle_total now id claim answer persisted t a db e f =
    elim (Result-cases (settle now id claim answer persisted db)) [
      | inl w ↦ w
      | inr (y, w) ↦
          let (r, h) =
            settle_result_total now id claim (outcome_of answer).http_status
              (after_task_success t.task_type persisted) t a db in
          ground (arith, e, f, w, h)
    ]

-- A worker that holds task and attempt as running ends both.
pub settle-Ended :
    (now id : ℕ) (claim : Claim) (answer : Answer) (persisted : Persisted) (t : AiTask)
    (a : AiTaskAttempt) (db : TaskDb)
    → lookup id db.tasks ≡ some t
    → lookup claim.attempt_id db.attempts ≡ some a
    → is_running claim.task.status ≡ true
    → is_running claim.attempt.status ≡ true
    → (r : TaskOutcome × TaskDb) × (settle now id claim answer persisted db ≡ ok r)
      × Ended id claim.attempt_id claim.task.cycle_attempt_count t a db r
settle-Ended now id claim answer persisted t a db e f o w =
    let (r, h) = settle_total now id claim answer persisted t a db e f in
    elim (settle-ok now id claim answer persisted t a db r e f h) [
      | inl (_, n) ↦ ground (arith, n, o, w)
      | inr (inl c) ↦ ground (arith, c.0, o)
      | inr (inr (_, d)) ↦ (r, h, d)
    ]

-- A result that is stored makes the task succeed.
pub settle-succeeded :
    (now id : ℕ) (claim : Claim) (outcome : ProviderOutcome) (t : AiTask) (a : AiTaskAttempt)
    (db : TaskDb)
    → lookup id db.tasks ≡ some t
    → lookup claim.attempt_id db.attempts ≡ some a
    → claim.task.status ≡ TaskStatus.running
    → claim.attempt.status ≡ TaskStatus.running
    → outcome.succeeded ≡ true
    → outcome.has_result ≡ true
    → (r : TaskOutcome × TaskDb) × (settle now id claim
          (Answer.answered outcome)
          Persisted.stored
          db
        ≡ ok r)
      × (r.1.tasks ≡ put id (succeeded_task now t) db.tasks)
      × (r.1.handoffs ≡ db.handoffs ++ (id, Handoff.result_stored) ∷ [])
unfolding settle settle_owned after_task_success settle_result finish_succeeded save_task
    save_attempt hand_off outcome_of
settle-succeeded now id claim outcome t a db e f s s' o y =
    let stored : after_task_success t.task_type Persisted.stored ≡ Persisted.stored =
      ground arith in
    let n = outcome.http_status in
    let (r, h) = settle_total now id claim (Answer.answered outcome) Persisted.stored t a db e f in
    (
      r,
      h,
      ground (arith, e, f, s, s', o, y, h, stored),
      ground (arith, e, f, s, s', o, y, h, stored),
    )
