-- ===== src/Screening/Tests.antt =====
-- Concrete screenings of application 7, by one officer and by another.
use ai_recruitment.Common.{◌≡◌, refl, some, none, ok, err, [], ◌∷◌, returned}
use ai_recruitment.Common.Text.{codes, text_eq, strip, rstrip, lstrip, is_space}
use ai_recruitment.Common.Table.{lookup, put, find_row}
use ai_recruitment.Models.{Db, Application, PipelineStatus, ScreeningChoice}
use ai_recruitment.Offers.Base.{Request}
use ai_recruitment.Offers.Samples.{officer, application, ready_db}
use ai_recruitment.Screening.{
  ScreeningError, ScreeningRequest, ScreeningRead, screening_pipeline, is_past_screening,
  requires_reason, stripped, is_listed_code, is_other, validate_screening_payload,
  find_screening_by_idempotency, current_score, add_screening_decision, read_screening,
}
use ai_recruitment.Screening.Writes.{
  ScreeningResult, screened_application, screening_row, log_screening, id_of, add_screening,
  write_screening_after, write_screening, create_screening_decision,
}
use ai_recruitment.Screening.Promises.{create-repeated, write-both}

abbrev pending : Application
pending = record application { pipeline_status = PipelineStatus.pending_hr_screen }

abbrev pending_db : Db
pending_db = record ready_db { applications = (7, pending) ∷ [] }

abbrev other_officer : Request
other_officer = record { actor = 8; now = 1001 }

abbrev invitation : ScreeningRequest
invitation = record {
  decision = ScreeningChoice.screening_enter_interview;
  reason_code = none;
  reason = none;
  lock_version = 4;
  idempotency_key = none;
}

abbrev keyed : ScreeningRequest
keyed = record invitation { idempotency_key = some (codes "s1") }

abbrev refusal : ScreeningRequest
refusal = record invitation {
  decision = ScreeningChoice.screening_reject;
  reason_code = some (codes "skill_mismatch");
}

abbrev unscreened : ScreeningResult
unscreened = record {
  id = 0;
  row = record {
    application_id = 0;
    decision = ScreeningChoice.screening_hold;
    reason_code = none;
    reason = none;
    from_pipeline_status = PipelineStatus.pending_hr_screen;
    to_pipeline_status = PipelineStatus.pending_hr_screen;
    decided_by = none;
    ai_result_id = none;
    idempotency_key = none;
    created_at = 0;
  };
  lock_version = 0;
}

invited : ScreeningResult × Db
invited = returned (create_screening_decision officer 7 1 keyed pending_db) (unscreened, pending_db)

invited-ok : create_screening_decision officer 7 1 keyed pending_db ≡ ok invited
unfolding invited create_screening_decision read_screening is_past_screening screening_pipeline
    validate_screening_payload requires_reason stripped is_listed_code is_other
    find_screening_by_idempotency write_screening write_screening_after add_screening
    screened_application screening_row log_screening id_of current_score add_screening_decision
    lookup put find_row
invited-ok = refl

create-repeated_example :
    create_screening_decision officer 7 2 keyed invited.1 ≡ err ScreeningError.updated_by_another
unfolding find_screening_by_idempotency find_row
create-repeated_example =
    create-repeated officer officer 7 1 2 keyed keyed pending_db invited refl invited-ok refl

abbrev seen : PipelineStatus → ScreeningRead
seen to_status = record { application = pending; to_status = to_status; existing = none }

write-both_example :
    (s s' : ScreeningResult × Db) × (write_screening officer 7 1 invitation
        (seen PipelineStatus.interviewing)
        pending_db
      ≡ ok s)
    × (write_screening other_officer 7 2 refusal (seen PipelineStatus.rejected) s.1 ≡ ok s')
    × (lookup 1 s'.1.screening_decisions ≡ some s.0.row)
    × (lookup 2 s'.1.screening_decisions ≡ some s'.0.row)
    × (s.0.row.decision ≡ ScreeningChoice.screening_enter_interview)
    × (s'.0.row.decision ≡ ScreeningChoice.screening_reject)
    × (row : Application) × (lookup 7 s'.1.applications ≡ some row)
    × (row.lock_version ≡ 5)
unfolding read_screening is_past_screening screening_pipeline validate_screening_payload
    requires_reason stripped is_listed_code is_other find_screening_by_idempotency lookup text_eq
    strip rstrip lstrip is_space
write-both_example =
    write-both officer other_officer 7 1 2 invitation refusal pending_db
      (seen PipelineStatus.interviewing) (seen PipelineStatus.rejected) refl refl refl refl refl
      refl refl
