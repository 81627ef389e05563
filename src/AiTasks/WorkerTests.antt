-- ===== src/AiTasks/WorkerTests.antt =====
-- Concrete runs of the AI worker.
use ai_recruitment.Common.{
  ◌+◌, ◌≤◌, ◌≡◌, refl, true, false, returned, bit, none, some, [], ◌∷◌, ◌++◌, ok, arith,
}
use ai_recruitment.Common.Text.{codes, text_eq}
use ai_recruitment.Common.Table.{lookup, put, count}
use ai_recruitment.Offers.Base.{Request}
use ai_recruitment.AiTasks.{
  save_task, record_audit, TaskStatus, Handoff, TaskType, AiTask, AiTaskAttempt, TaskDb, is_pending,
  is_running, is_sensitive, mark_stale_failed_ai_task,
}
use ai_recruitment.AiTasks.Worker.{
  claim_task, claim_found, should_auto_retry, ProviderOutcome, Answer, Persisted, Claim,
  TaskOutcome, ai_task_max_attempts, start_attempt, claimed, claimed_task, new_attempt,
  counted_task, retryable, max_attempt_no, rescheduled_task,
}
use ai_recruitment.AiTasks.Settle.{
  settle, settle_owned, settle_result, finish, finish_succeeded, reschedule, after_task_failure,
  save_attempt, hand_off, provider_failure,
}
use ai_recruitment.AiTasks.Entries.{
  enter, enter_default, enter_default_found, enter_sensitive, enter_sensitive_found, reroute,
}
use ai_recruitment.AiTasks.Creation.{new_task, create_ai_task}
use ai_recruitment.AiTasks.Recovery.{runs_for}
use ai_recruitment.AiTasks.Soundness.{IsSound}
use ai_recruitment.AiTasks.Numbering.{IsNumbered}
use ai_recruitment.AiTasks.System.{World, Step, Run, begin, next, IsTimely, TimelyRun, further}
use ai_recruitment.AiTasks.System.Runs.{IsStart, Run-Sound, Run-start_attempt, recovered-settled}
use ai_recruitment.AiTasks.Retries.{
  handle_process, run_claimed, Script, deliver_retries, deliver_retries_ends,
}
use ai_recruitment.AiTasks.Routing.{reroute-enter}

abbrev at_100 : Request
at_100 = record { actor = 9; now = 100 }

abbrev empty_db : TaskDb
empty_db = record { tasks = []; attempts = []; audit_logs = []; queue = []; handoffs = [] }

abbrev empty_world : World
empty_world = record { db = empty_db; claimed = [] }

empty_world-IsStart : IsStart empty_world
unfolding IsSound IsNumbered lookup count max_attempt_no
empty_world-IsStart = record {
  sound = λ k. (λ t e. ground (arith, e), λ n. refl);
  numbered =
      λ k. (λ t e. ground (arith, e), λ n. record { highest = refl; once = λ n. ground arith });
}

-- A task for a job, created at 100 and taken by a worker at 101.
abbrev created : AiTask × TaskDb
created =
    returned (create_ai_task at_100 1 TaskType.jd_parse 70 empty_db)
      (new_task 0 TaskType.jd_parse 0, empty_db)

abbrev taken : TaskOutcome × TaskDb
taken = returned (enter false 101 1 none created.1) (TaskOutcome.missing, empty_db)

abbrev no_claim : Claim
no_claim = record {
  attempt_id = 0;
  attempt_no = 0;
  retry_cycle_no = 0;
  cycle_attempt_no = 0;
  task = new_task 0 TaskType.jd_parse 0;
  attempt = new_attempt 0 0 0 (new_task 0 TaskType.jd_parse 0);
}

abbrev started : Claim × TaskDb
started = returned (start_attempt 101 1 50 taken.1) (no_claim, empty_db)

abbrev busy : ProviderOutcome
busy = record {
  succeeded = false;
  has_result = false;
  error_code = some (codes "provider_5xx");
  error_message = none;
  error_category = some retryable;
  http_status = some 503;
}

abbrev good : ProviderOutcome
good = record {
  succeeded = true;
  has_result = true;
  error_code = none;
  error_message = none;
  error_category = none;
  http_status = some 200;
}

abbrev retried : TaskOutcome × TaskDb
retried =
    returned (settle 110 1 started.0 (Answer.answered busy) Persisted.stored started.1)
      (TaskOutcome.missing, empty_db)

abbrev taken_world : World
taken_world = record { db = taken.1; claimed = 1 ∷ [] }

to_taken : Run empty_world taken_world
unfolding create_ai_task enter enter_default enter_default_found enter_sensitive
    enter_sensitive_found claim_task claim_found save_task start_attempt settle settle_owned
    settle_result finish finish_succeeded reschedule after_task_failure save_attempt hand_off
    reroute record_audit count max_attempt_no put should_auto_retry text_eq lookup is_sensitive
    new_task claimed_task counted_task new_attempt
to_taken =
    next (next begin (Step.create at_100 1 70 TaskType.jd_parse created refl))
      (Step.enter_queue false 101 1 none taken refl)

abbrev started_world : World
started_world = record { db = started.1; claimed = [] }

to_started : TimelyRun empty_world started_world
unfolding IsTimely create_ai_task enter enter_default enter_default_found enter_sensitive
    enter_sensitive_found claim_task claim_found save_task start_attempt settle settle_owned
    settle_result finish finish_succeeded reschedule after_task_failure save_attempt hand_off
    reroute record_audit count max_attempt_no put should_auto_retry text_eq lookup is_sensitive
    new_task claimed_task counted_task new_attempt
to_started =
    further
      (further (further TimelyRun.start (Step.create at_100 1 70 TaskType.jd_parse created refl) tt)
        (Step.enter_queue false 101 1 none taken refl) tt)
      (Step.start_next 101 1 50 [] [] started refl refl) tt

abbrev retried_world : World
retried_world = record { db = retried.1; claimed = [] }

abbrev attempt_1 : AiTaskAttempt
attempt_1 = record {
  task_id = 1;
  attempt_no = 1;
  retry_cycle_no = 0;
  cycle_attempt_no = 1;
  status = TaskStatus.running;
  started_at = 101;
  http_status = none;
  error_category = none;
  error_message = none;
  finished_at = none;
}

to_retried : TimelyRun empty_world retried_world
unfolding IsTimely create_ai_task enter enter_default enter_default_found enter_sensitive
    enter_sensitive_found claim_task claim_found save_task start_attempt settle settle_owned
    settle_result finish finish_succeeded reschedule after_task_failure save_attempt hand_off
    reroute record_audit count max_attempt_no put should_auto_retry text_eq lookup is_sensitive
    new_task claimed_task counted_task new_attempt
to_retried =
    further to_started
      (Step.settle_next 110 1 started.0 (Answer.answered busy) Persisted.stored attempt_1 retried
        refl refl refl)
      (refl, refl)

abbrev running_task : AiTask
running_task = counted_task 101 1 (claimed_task 101 (new_task 100 TaskType.jd_parse 70))

-- The task that waits for its second attempt.
abbrev waiting_task : AiTask
waiting_task =
    rescheduled_task 110 (provider_failure TaskStatus.failed busy) running_task running_task

Run-Sound_example :
    (count (runs_for 1) retried_world.db.attempts ≤ bit (is_running waiting_task.status))
    × (waiting_task.cycle_attempt_count + bit (is_pending waiting_task.status)
        ≤ ai_task_max_attempts)
unfolding create_ai_task enter enter_default enter_default_found enter_sensitive
    enter_sensitive_found claim_task claim_found save_task start_attempt settle settle_owned
    settle_result finish finish_succeeded reschedule after_task_failure save_attempt hand_off
    reroute record_audit count max_attempt_no put should_auto_retry text_eq lookup is_sensitive
    new_task claimed_task counted_task new_attempt
Run-Sound_example =
    Run-Sound empty_world retried_world 1 waiting_task empty_world-IsStart to_retried refl

-- The task between claim and attempt.
abbrev taken_task : AiTask
taken_task = claimed_task 101 (new_task 100 TaskType.jd_parse 70)

Run-start_attempt_example :
    (r : Claim × TaskDb) × (start_attempt 101 1 50 taken_world.db ≡ ok r)
    × (r.0.attempt_no ≡ taken_task.attempt_count + 1)
    × (r.0.cycle_attempt_no ≡ taken_task.cycle_attempt_count + 1)
unfolding create_ai_task enter enter_default enter_default_found enter_sensitive
    enter_sensitive_found claim_task claim_found save_task start_attempt settle settle_owned
    settle_result finish finish_succeeded reschedule after_task_failure save_attempt hand_off
    reroute record_audit count max_attempt_no put should_auto_retry text_eq lookup is_sensitive
    new_task claimed_task counted_task new_attempt
Run-start_attempt_example =
    Run-start_attempt empty_world taken_world 101 1 50 taken_task empty_world-IsStart to_taken refl
      refl

abbrev at_500 : Request
at_500 = record { actor = 9; now = 500 }

abbrev recovered : AiTask × TaskDb
recovered =
    returned (mark_stale_failed_ai_task at_500 1 101 started.1)
      (new_task 0 TaskType.jd_parse 0, empty_db)

recovered-settled_example :
    (before after : AiTask) × (x : TaskOutcome × TaskDb) × (lookup 1 recovered.1.tasks
      ≡ some before)
    × (before.status ≡ TaskStatus.failed)
    × (settle 600 1 started.0 (Answer.answered good) Persisted.stored recovered.1 ≡ ok x)
    × (lookup 1 x.1.tasks ≡ some after)
    × (after.status ≡ TaskStatus.succeeded)
    × (x.1.handoffs ≡ recovered.1.handoffs ++ (1, Handoff.result_stored) ∷ [])
unfolding mark_stale_failed_ai_task create_ai_task enter enter_default enter_default_found
    enter_sensitive enter_sensitive_found claim_task claim_found save_task start_attempt settle
    settle_owned settle_result finish finish_succeeded reschedule after_task_failure save_attempt
    hand_off reroute record_audit count max_attempt_no put should_auto_retry text_eq lookup
    is_sensitive new_task claimed_task counted_task new_attempt
recovered-settled_example =
    recovered-settled at_500 1 101 600 started.0 good attempt_1 started.1 recovered refl refl refl
      refl refl refl

-- A provider that is always busy.
abbrev busy_script : Script
busy_script = record {
  now = λ i. 200 + i;
  key = λ i. i;
  answer = λ i. Answer.answered busy;
  persisted = λ i. Persisted.stored;
}

abbrev new_job_task : AiTask
new_job_task = new_task 100 TaskType.jd_parse 70

deliver_retries_ends_example :
    (outcome : TaskOutcome) × (db' : TaskDb) × (task' : AiTask) × (deliver_retries busy_script 1 3 0
        created.1
      ≡ ok (some outcome, db'))
    × (lookup 1 db'.tasks ≡ some task')
    × (is_pending task'.status ≡ false)
    × (is_running task'.status ≡ false)
    × (task'.attempt_count ≤ new_job_task.attempt_count + 3)
unfolding create_ai_task enter enter_default enter_default_found enter_sensitive
    enter_sensitive_found claim_task claim_found save_task start_attempt settle settle_owned
    settle_result finish finish_succeeded reschedule after_task_failure save_attempt hand_off
    reroute record_audit count max_attempt_no put should_auto_retry text_eq lookup is_sensitive
    new_task claimed_task counted_task new_attempt
deliver_retries_ends_example =
    deliver_retries_ends busy_script 1 3 0 new_job_task created.1 refl refl
      (record { highest = refl; once = λ n. ground arith })
      (record { unused = λ j m. refl; distinct = λ j j' e. e }) (omega arith) (omega arith)

-- A task for the questions of an interview, whose message came to the default queue.
abbrev question_task : AiTask
question_task = new_task 100 TaskType.interview_question_generate 80

abbrev question_db : TaskDb
question_db = record empty_db { tasks = (2, question_task) ∷ [] }

reroute-enter_example :
    (r : TaskOutcome × TaskDb) × (r' : TaskOutcome × TaskDb) × (enter false 101 2 none question_db
      ≡ ok r)
    × (r.1.queue ≡ question_db.queue ++ (2, true) ∷ [])
    × (r.1.tasks ≡ question_db.tasks)
    × (r.1.attempts ≡ question_db.attempts)
    × (enter true 102 2 none r.1 ≡ ok r')
    × (r'.0 ≡ claimed)
    × (lookup 2 r'.1.tasks ≡ some (claimed_task 102 question_task))
unfolding lookup is_sensitive new_task
reroute-enter_example = reroute-enter 101 102 2 none question_task question_db refl refl refl

-- Three busy answers end the task as failed.
busy_ends :
    (returned (deliver_retries busy_script 1 3 0 created.1) (none, empty_db)).0
    ≡ some (TaskOutcome.finished TaskStatus.failed 3)
unfolding deliver_retries handle_process run_claimed create_ai_task enter enter_default
    enter_default_found enter_sensitive enter_sensitive_found claim_task claim_found save_task
    start_attempt settle settle_owned settle_result finish finish_succeeded reschedule
    after_task_failure save_attempt hand_off reroute record_audit count max_attempt_no put
    should_auto_retry text_eq lookup is_sensitive new_task claimed_task counted_task new_attempt
busy_ends = refl
