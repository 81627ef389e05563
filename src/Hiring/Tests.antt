-- ===== src/Hiring/Tests.antt =====
-- Concrete runs of hiring decisions.
use ai_recruitment.Common.{returned, ℕ, ◌≡◌, refl, none, some, [], ◌∷◌, ◌++◌, ok, err, arith}
use ai_recruitment.Common.Text.{codes, strip}
use ai_recruitment.Common.Table.{lookup, put, find_row}
use ai_recruitment.Models.{
  Db, Application, Candidate, PipelineStatus, Decision, Reason, HiringDecision,
}
use ai_recruitment.Offers.Base.{application_closed}
use ai_recruitment.Offers.Drafts.{creatable, create_offer}
use ai_recruitment.Offers.Masking.{mask_email}
use ai_recruitment.Offers.Store.{find_active_offer}
use ai_recruitment.Offers.Samples.{application, libraries, officer, ready_db}
use ai_recruitment.HiringRules.{
  HiringError, HiringRequest, HiringResult, decidable, admissible, evidence, validate_reason,
  decision_to_pipeline, reason_allowed, allows, add_hiring_decision, find_hiring_by_idempotency,
  is_stale,
}
use ai_recruitment.Hiring.{create_hiring_decision, decide_after, write_decision, on_integrity_error}
use ai_recruitment.Hiring.Promises.{decision-repeat}
use ai_recruitment.Hiring.History.{Calls, no_call, one_more, history-kept, decided-last}
use ai_recruitment.Hiring.Gate.{recommend_hire-creatable, reject-not_creatable}

abbrev candidate : Candidate
candidate = record { name = codes "Lin"; email = some (codes "lin@mail.example") }

abbrev interviewed : Application
interviewed = record application { pipeline_status = PipelineStatus.interviewing }

abbrev older : HiringDecision
older = record {
  application_id = 7;
  decision = Decision.hold;
  reason = Reason.need_more_evidence;
  round_id = 12;
  analysis_version_id = 9;
  overall_score = none;
  analysis_version_no = 1;
  transcript_version_id = 8;
  job_version_id = 2;
  from_pipeline_status = PipelineStatus.interviewing;
  to_pipeline_status = PipelineStatus.interviewing;
  decided_by = some 9;
  idempotency_key = none;
  created_at = 500;
}

abbrev interviewed_db : Db
interviewed_db = record ready_db {
  applications = (7, interviewed) ∷ [];
  hiring_decisions = (4, older) ∷ [];
  analysis_versions =
      (
        10,
        record {
          analysis_id = 11;
          version_no = 2;
          overall_score = some 4;
          transcript_version_id = 14;
          job_version_id = 2;
        },
      )
      ∷ [];
  analyses = (11, record { interview_round_id = 12; current_version_id = some 10 }) ∷ [];
  rounds = (12, record { application_id = 7 }) ∷ [];
  transcripts = (13, record { round_id = 12; current_confirmed_version_id = some 14 }) ∷ [];
  offers = [];
  offer_versions = [];
}

abbrev recommendation : HiringRequest
recommendation = record {
  decision = Decision.recommend_hire;
  reason = Reason.meets_role_bar;
  analysis_version_id = 10;
  lock_version = 4;
  idempotency_key = some (codes "d1");
}

abbrev later : HiringRequest
later = record {
  decision = Decision.reject;
  reason = Reason.skill_gap;
  analysis_version_id = 10;
  lock_version = 5;
  idempotency_key = none;
}

abbrev no_result : HiringResult
no_result = record { id = 0; row = older; lock_version = 0 }

recommended : HiringResult × Db
recommended =
    returned (create_hiring_decision officer 7 5 recommendation interviewed_db)
      (no_result, interviewed_db)

abbrev rejection : HiringRequest
rejection = record later { lock_version = 4 }

rejected_run : HiringResult × Db
rejected_run =
    returned (create_hiring_decision officer 7 5 rejection interviewed_db)
      (no_result, interviewed_db)

recommended-ok : create_hiring_decision officer 7 5 recommendation interviewed_db ≡ ok recommended
unfolding recommended create_hiring_decision decide_after decidable admissible evidence
    validate_reason decision_to_pipeline reason_allowed allows write_decision add_hiring_decision
    find_hiring_by_idempotency is_stale on_integrity_error lookup put find_row
recommended-ok = refl

rejected_run-ok : create_hiring_decision officer 7 5 rejection interviewed_db ≡ ok rejected_run
unfolding rejected_run create_hiring_decision decide_after decidable admissible evidence
    validate_reason decision_to_pipeline reason_allowed allows write_decision add_hiring_decision
    find_hiring_by_idempotency is_stale on_integrity_error lookup put find_row
rejected_run-ok = refl

-- A second application, which is put on hold behind the decision on the first one.
abbrev two_db : Db
two_db = record interviewed_db {
  applications = (7, interviewed) ∷ (8, interviewed) ∷ [];
  analysis_versions =
      interviewed_db.analysis_versions
      ++ (
        17,
        record {
          analysis_id = 18;
          version_no = 1;
          overall_score = none;
          transcript_version_id = 20;
          job_version_id = 2;
        },
      )
        ∷ [];
  analyses =
      interviewed_db.analyses
      ++ (18, record { interview_round_id = 19; current_version_id = some 17 }) ∷ [];
  rounds = interviewed_db.rounds ++ (19, record { application_id = 8 }) ∷ [];
  transcripts =
      interviewed_db.transcripts
      ++ (21, record { round_id = 19; current_confirmed_version_id = some 20 }) ∷ [];
}

abbrev hold : HiringRequest
hold = record {
  decision = Decision.hold;
  reason = Reason.need_more_evidence;
  analysis_version_id = 17;
  lock_version = 4;
  idempotency_key = none;
}

first_call : HiringResult × Db
first_call = returned (create_hiring_decision officer 7 5 recommendation two_db) (no_result, two_db)

second_call : HiringResult × Db
unfolding first_call
second_call =
    returned (create_hiring_decision officer 8 6 hold first_call.1) (no_result, interviewed_db)

first_call-ok : create_hiring_decision officer 7 5 recommendation two_db ≡ ok first_call
unfolding first_call create_hiring_decision decide_after decidable admissible evidence
    validate_reason decision_to_pipeline reason_allowed allows write_decision add_hiring_decision
    find_hiring_by_idempotency is_stale on_integrity_error lookup put find_row
first_call-ok = refl

second_call-ok : create_hiring_decision officer 8 6 hold first_call.1 ≡ ok second_call
unfolding second_call first_call create_hiring_decision decide_after decidable admissible evidence
    validate_reason decision_to_pipeline reason_allowed allows write_decision add_hiring_decision
    find_hiring_by_idempotency is_stale on_integrity_error lookup put find_row
second_call-ok = refl

both-Calls : Calls two_db second_call.1
both-Calls =
    one_more officer 8 6 hold second_call
      (one_more officer 7 5 recommendation first_call no_call first_call-ok) second_call-ok

history-kept_example : lookup 4 second_call.1.hiring_decisions ≡ some older
unfolding lookup
history-kept_example = history-kept two_db second_call.1 4 older both-Calls refl

decision-repeat_example :
    (r' : HiringResult) × (create_hiring_decision officer 7 6
        (record later { idempotency_key = some (codes "d1") })
        recommended.1
      ≡ ok (r', recommended.1))
    × (r'.id ≡ recommended.0.id)
decision-repeat_example =
    decision-repeat officer officer 7 5 6 recommendation
      (record later { idempotency_key = some (codes "d1") }) (codes "d1") interviewed_db recommended
      refl refl refl recommended-ok

decided-last_example :
    (e : HiringError) × (create_hiring_decision officer 7 9 later second_call.1 ≡ err e)
unfolding find_hiring_by_idempotency find_row
decided-last_example =
    decided-last officer officer 7 5 9 recommendation later two_db second_call.1 first_call refl
      first_call-ok (λ h. ground arith)
      (one_more officer 8 6 hold second_call no_call second_call-ok) refl

recommend_hire-creatable_example :
    (latest : ℕ) × (creatable 7 recommended.1
      ≡ ok ((latest, codes "l***@mail.example", codes "Lin"), recommended.1))
unfolding recommended create_hiring_decision decide_after decidable admissible evidence
    validate_reason decision_to_pipeline reason_allowed allows write_decision add_hiring_decision
    find_hiring_by_idempotency is_stale on_integrity_error lookup put find_row mask_email
    find_active_offer strip
recommend_hire-creatable_example =
    recommend_hire-creatable officer 7 5 recommendation interviewed_db recommended interviewed
      candidate (codes "l***@mail.example") refl refl refl refl refl refl refl refl

reject-not_creatable_example :
    create_offer libraries officer 7 20 30 none rejected_run.1 ≡ err application_closed
unfolding find_hiring_by_idempotency
reject-not_creatable_example =
    reject-not_creatable libraries officer officer 7 5 20 30 rejection interviewed_db rejected_run
      refl rejected_run-ok refl
