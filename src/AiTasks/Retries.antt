-- ===== src/AiTasks/Retries.antt =====
-- The chain of automatic retries of `_handle_process` (backend/app/workers/ai_tasks.py): a run that
-- fails with a retryable error puts the task back and sends the message that the next run takes.
use ai_recruitment.Common.{
  ℕ, zero, suc, ◌+◌, ◌≤◌, ◌≡◌, ◌≢◌, ◌∙◌, ap, refl, inl, inr, true, false, Option, none, some, pure,
  ◌>>=◌, ok, if◌then◌else◌, Bool-cases, arith,
}
use ai_recruitment.Common.Table.{Table, lookup, put, lookup-put, lookup-put_self}
use ai_recruitment.AiTasks.{
  AiTask, AiTaskAttempt, TaskDb, TaskCall, is_pending, is_running, save_task,
}
use ai_recruitment.AiTasks.Worker.{
  Answer, Persisted, TaskOutcome, ai_task_max_attempts, max_attempt_no, claim_task, claim_found,
  claimed_task, counted_task, new_attempt, start_attempt,
}
use ai_recruitment.AiTasks.Numbering.{Numbers, start-Numbers, end-Numbers}
use ai_recruitment.AiTasks.Effects.{start_attempt-ok, start_attempt_total}
use ai_recruitment.AiTasks.Settle.{settle}
use ai_recruitment.AiTasks.Settle.Effects.{Ended, is_scheduled, settle-Ended}

-- What the world outside gives to the runs of a task: the clock, the keys that `uuid4` makes, the
-- answers of the provider and how storing a result ends.
pub record Script : Type 0 where
  pub now : ℕ → ℕ
  pub key : ℕ → ℕ
  pub answer : ℕ → Answer
  pub persisted : ℕ → Persisted

unfoldable pub run_claimed : ℕ → ℕ → ℕ → Answer → Persisted → TaskOutcome → TaskCall TaskOutcome
run_claimed now id attempt_id answer persisted TaskOutcome.claimed = do
  claim ← start_attempt now id attempt_id
  settle now id claim answer persisted
run_claimed now id attempt_id answer persisted outcome = pure outcome

-- `_handle_process`, with no other call in between
unfoldable pub handle_process : ℕ → ℕ → ℕ → Answer → Persisted → TaskCall TaskOutcome
unfolding run_claimed
handle_process now id attempt_id answer persisted = do
  outcome ← claim_task now id
  run_claimed now id attempt_id answer persisted outcome

-- The runs of a task, from the one with the given index on, as long as each sends a message for the
-- next; `none` when the given number of runs was not enough.
unfoldable pub deliver_retries : Script → ℕ → ℕ → ℕ → TaskCall (Option TaskOutcome)
deliver_retries s id zero i = pure none
deliver_retries s id (suc n) i =
    let rest = deliver_retries s id n (i + 1) in
    do
      outcome ← handle_process (s.now i) id (s.key i) (s.answer i) (s.persisted i)
      if is_scheduled outcome then rest else pure (some outcome)

claim_pending :
    (now id : ℕ) (t : AiTask) (db : TaskDb)
    → lookup id db.tasks ≡ some t
    → is_pending t.status ≡ true
    → claim_task now id db
      ≡ ok (TaskOutcome.claimed, record db { tasks = put id (claimed_task now t) db.tasks })
unfolding claim_task claim_found save_task
claim_pending now id t db e p = ground (arith, e, p)

-- What a run leaves behind that took a pending task.
record Processed (id k cycle : ℕ) (attempts : Table AiTaskAttempt) (r : TaskOutcome × TaskDb)
    : Type 0 where
  row : AiTask
  found : lookup id r.1.tasks ≡ some row
  over : is_running row.status ≡ false
  scheduled : is_scheduled r.0 ≡ is_pending row.status
  again : is_pending row.status ≡ true → row.cycle_attempt_count + 1 ≤ ai_task_max_attempts
  counted : row.cycle_attempt_count ≡ cycle + 1
  numbers : Numbers id r.1.attempts row.attempt_count
  one_more : row.attempt_count ≡ max_attempt_no id attempts + 1
  others : (j : ℕ) → j ≢ k → lookup j r.1.attempts ≡ lookup j attempts

end-Processed :
    (id k j m cycle : ℕ) (t c : AiTask) (a : AiTaskAttempt) (db db₁ : TaskDb)
    (r : TaskOutcome × TaskDb)
    → j ≡ k
    → lookup k db.attempts ≡ none
    → Numbers id db.attempts m
    → db₁.attempts ≡ put k a db.attempts
    → a.task_id ≡ id
    → a.attempt_no ≡ max_attempt_no id db.attempts + 1
    → c.cycle_attempt_count ≡ t.cycle_attempt_count + 1
    → c.attempt_count ≡ max_attempt_no id db.attempts + 1
    → cycle ≡ c.cycle_attempt_count
    → Ended id j cycle c a db₁ r
    → Processed id k t.cycle_attempt_count db.attempts r
end-Processed id k j m cycle t c a db db₁ r z n v w i l p q o d' =
    let d : Ended id k cycle c a db₁ r = rw (← z) d' in
    let g : lookup k db₁.attempts ≡ some a = rw w (lookup-put_self k a db.attempts) in
    let b : Numbers id db₁.attempts (max_attempt_no id db.attempts + 1) =
      rw w (start-Numbers id k m a db.attempts n i l v) in
    record {
      row = d.task;
      found = rw d.tasks (lookup-put_self id d.task db₁.tasks);
      over = d.over;
      scheduled = d.scheduled;
      again = λ y. omega (arith, d.again y, o, d.same_cycle);
      counted = d.same_cycle ∙ p;
      numbers =
          rw (d.attempts, d.keeps.same_count, q)
            (end-Numbers id k (max_attempt_no id db.attempts + 1) a d.attempt db₁.attempts g d.ends
              b);
      one_more = d.keeps.same_count ∙ q;
      others = λ j y.
          rw (d.attempts, w)
            (ground (
              arith,
              y,
              lookup-put j k d.attempt (put k a db.attempts),
              lookup-put j k a db.attempts,
            ));
    }

-- The rest of the run, from the claimed task on.
start-Processed :
    (now id k m : ℕ) (answer : Answer) (persisted : Persisted) (t : AiTask) (db : TaskDb)
    → lookup id db.tasks ≡ some t
    → is_running t.status ≡ true
    → lookup k db.attempts ≡ none
    → Numbers id db.attempts m
    → (r : TaskOutcome × TaskDb) × (run_claimed now id k answer persisted TaskOutcome.claimed db
        ≡ ok r)
      × Processed id k t.cycle_attempt_count db.attempts r
unfolding run_claimed counted_task new_attempt
start-Processed now id k m answer persisted t db e o n v =
    let (x, q, f) = start_attempt_total now id k m t db e n v in
    let (t', e', _, p, w) = start_attempt-ok now id k db x q in
    let a = new_attempt now id (max_attempt_no id db.attempts + 1) t' in
    let c = counted_task now (max_attempt_no id db.attempts + 1) t' in
    let same : t' ≡ t = ground (arith, e, e') in
    let g : lookup id x.1.tasks ≡ some c = rw p (lookup-put_self id c db.tasks) in
    let l : lookup x.0.attempt_id x.1.attempts ≡ some a =
      rw (f, w) (lookup-put_self k a db.attempts) in
    let (r, h, d) = settle-Ended now id x.0 answer persisted c a x.1 g l (rw f o) (rw f refl) in
    (
      r,
      ground (arith, q, h),
      end-Processed id k x.0.attempt_id m x.0.task.cycle_attempt_count t c a db x.1 r
          (ap (λ y. y.attempt_id) f) n v w refl refl (ground (arith, same)) refl
          (ap (λ y. y.task.cycle_attempt_count) f ∙ ground (arith, same)) d,
    )

handle_process-Processed :
    (now id k m : ℕ) (answer : Answer) (persisted : Persisted) (t : AiTask) (db : TaskDb)
    → lookup id db.tasks ≡ some t
    → is_pending t.status ≡ true
    → lookup k db.attempts ≡ none
    → Numbers id db.attempts m
    → (r : TaskOutcome × TaskDb) × (handle_process now id k answer persisted db ≡ ok r)
      × Processed id k t.cycle_attempt_count db.attempts r
unfolding handle_process claimed_task counted_task new_attempt
handle_process-Processed now id k m answer persisted t db e p n v =
    let c = claimed_task now t in
    let db₁ : TaskDb = record db { tasks = put id c db.tasks } in
    let e₁ : lookup id db₁.tasks ≡ some c = lookup-put_self id c db.tasks in
    let (r, h, d) = start-Processed now id k m answer persisted c db₁ e₁ refl n v in
    (r, ground (arith, claim_pending now id t db e p, h), d)

-- `uuid4` gives keys that are new and differ from each other.
pub record IsFresh (s : Script) (i : ℕ) (attempts : Table AiTaskAttempt) : Type 0 where
  pub unused : (j : ℕ) → i ≤ j → lookup (s.key j) attempts ≡ none
  pub distinct : (j j' : ℕ) → s.key j ≡ s.key j' → j ≡ j'

-- The chain of automatic retries ends: with at least one run, and as many as the retry cycle of a
-- pending task has attempts left, the task comes to a status that no run follows, whatever the
-- provider answers, if the keys of the attempts are fresh and those so far are numbered. It has at
-- most one more attempt for each run.
pub deliver_retries_ends :
    (s : Script) (id n i : ℕ) (task : AiTask) (db : TaskDb)
    → lookup id db.tasks ≡ some task
    → is_pending task.status ≡ true
    → Numbers id db.attempts task.attempt_count
    → IsFresh s i db.attempts
    → 1 ≤ n
    → ai_task_max_attempts ≤ task.cycle_attempt_count + n
    → (outcome : TaskOutcome) × (db' : TaskDb) × (task' : AiTask) × (deliver_retries s id n i db
        ≡ ok (some outcome, db'))
      × (lookup id db'.tasks ≡ some task')
      × (is_pending task'.status ≡ false)
      × (is_running task'.status ≡ false)
      × (task'.attempt_count ≤ task.attempt_count + n)
unfolding deliver_retries
deliver_retries_ends s id zero i task db e p v f o l = ground (arith, o)
deliver_retries_ends s id (suc n) i task db e p v f o l =
    let (r, h, d) =
      handle_process-Processed (s.now i) id (s.key i) task.attempt_count (s.answer i)
        (s.persisted i) task db e p (f.unused i (omega arith)) v in
    elim (Bool-cases (is_pending d.row.status)) [
      | inr b ↦ (
        r.0,
        r.1,
        d.row,
        ground (arith, h, d.scheduled, b),
        d.found,
        b,
        d.over,
        ground (arith, d.one_more, v.highest),
      )
      | inl b ↦
          let g : IsFresh s (i + 1) r.1.attempts = record {
            unused = λ j m. ground (
              arith,
              d.others (s.key j) (λ w. ground (arith, f.distinct j i w, m)),
              f.unused j (omega (arith, m)),
            );
            distinct = f.distinct;
          } in
          let (x, y, z, q, w, a, c, k) =
            deliver_retries_ends s id n (i + 1) d.row r.1 d.found b d.numbers g
              (omega (arith, d.again b, d.counted, l)) (omega (arith, d.counted, l)) in
          (
            x,
            y,
            z,
            ground (arith, h, d.scheduled, b, q),
            w,
            a,
            c,
            omega (arith, k, d.one_more, v.highest),
          )
    ]
