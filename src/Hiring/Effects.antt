-- ===== src/Hiring/Effects.antt =====
-- What the checks and the writes of `create_hiring_decision` do
-- (backend/app/services/hiring_decisions.py).
use ai_recruitment.Common.{
  ℕ, ◌≡◌, ◌⊎◌, Option, none, some, ok, Result-cases, Option-cases, inl, inr, arith, refl, true,
}
use ai_recruitment.Common.Text.{Text}
use ai_recruitment.Common.Table.{lookup, put}
use ai_recruitment.Models.{
  Db, Application, ApplicationStatus, PipelineStatus, Decision, Reason, HiringDecision,
}
use ai_recruitment.Offers.Base.{Request, given}
use ai_recruitment.HiringRules.{
  HiringError, HiringRequest, HiringResult, Plan, allows, reason_allowed, decision_to_pipeline,
  validate_reason, admissible, evidence, add_hiring_decision, decidable, find_hiring_by_idempotency,
}
use ai_recruitment.Hiring.{
  decision_row, decided_application, write_decision, on_integrity_error, recover, recover_from,
  decide_after, create_hiring_decision,
}

validate_reason-ok :
    (d : Decision) (r : Reason) (s : PipelineStatus)
    → validate_reason d r ≡ ok s
    → (decision_to_pipeline d ≡ some s) × (allows (reason_allowed r) d ≡ true)
unfolding validate_reason
validate_reason-ok d r s h = ground arith

-- The checks change nothing.
pub admissible-ok :
    (application : Application) (payload : HiringRequest) (db : Db) (p : PipelineStatus × Db)
    → admissible application payload db ≡ ok p
    → (p.1 ≡ db)
      × (application.lock_version ≡ payload.lock_version)
      × (application.status ≡ ApplicationStatus.in_progress)
      × (application.pipeline_status ≡ PipelineStatus.interviewing)
      × (decision_to_pipeline payload.decision ≡ some p.0)
      × (allows (reason_allowed payload.reason) payload.decision ≡ true)
unfolding admissible
admissible-ok application payload db p h =
    grind (arith, validate_reason-ok payload.decision payload.reason)

evidence-ok :
    (application_id version_id : ℕ) (to_status : PipelineStatus) (db : Db) (p : Plan × Db)
    → evidence application_id version_id to_status db ≡ ok p
    → (p.1 ≡ db) × (p.0.to_status ≡ to_status)
unfolding evidence
evidence-ok application_id version_id to_status db p h = ground arith

add_hiring_decision-ok :
    (id : ℕ) (d : HiringDecision) (db : Db) (r : Unit {0} × Db)
    → add_hiring_decision id d db ≡ ok r
    → (lookup id db.hiring_decisions ≡ none)
      × (find_hiring_by_idempotency d.application_id d.idempotency_key db ≡ none)
      × (r.1 ≡ record db { hiring_decisions = put id d db.hiring_decisions })
unfolding add_hiring_decision
add_hiring_decision-ok id d db r h = ground arith

pub decidable-ok :
    (application_id : ℕ) (application : Application) (payload : HiringRequest) (db : Db)
    (p : Plan × Db)
    → decidable application_id application payload db ≡ ok p
    → (p.1 ≡ db)
      × (application.lock_version ≡ payload.lock_version)
      × (application.status ≡ ApplicationStatus.in_progress)
      × (application.pipeline_status ≡ PipelineStatus.interviewing)
      × (decision_to_pipeline payload.decision ≡ some p.0.to_status)
      × (allows (reason_allowed payload.reason) payload.decision ≡ true)
unfolding decidable
decidable-ok application_id application payload db p h = grind (arith, admissible-ok, evidence-ok)

pub write_decision-ok :
    (c : Request) (application_id decision_id : ℕ) (application : Application)
    (payload : HiringRequest) (plan : Plan) (db : Db) (r : HiringResult × Db)
    → write_decision c application_id decision_id application payload plan db ≡ ok r
    → (lookup decision_id db.hiring_decisions ≡ none)
      × (find_hiring_by_idempotency application_id payload.idempotency_key db ≡ none)
      × (r.1.hiring_decisions
          ≡ put decision_id (decision_row c application_id payload plan) db.hiring_decisions)
      × (r.1.applications
          ≡ put application_id (decided_application c payload plan application) db.applications)
      × (r.1.offers ≡ db.offers)
      × (r.0.id ≡ decision_id)
unfolding write_decision decision_row
write_decision-ok c application_id decision_id application payload plan db r h =
    grind (arith, add_hiring_decision-ok)

-- A decision that was written: what it found, and what it wrote.
pub record Decided (c : Request) (application_id decision_id : ℕ) (payload : HiringRequest)
    (db : Db) (r : HiringResult × Db) : Type 0 where
  pub application : Application
  pub plan : Plan
  pub found : lookup application_id db.applications ≡ some application
  pub expected : application.lock_version ≡ payload.lock_version
  pub open_yet : application.status ≡ ApplicationStatus.in_progress
  pub interviewing : application.pipeline_status ≡ PipelineStatus.interviewing
  pub target : decision_to_pipeline payload.decision ≡ some plan.to_status
  pub free : lookup decision_id db.hiring_decisions ≡ none
  pub unused : find_hiring_by_idempotency application_id payload.idempotency_key db ≡ none
  pub decisions :
      r.1.hiring_decisions
      ≡ put decision_id (decision_row c application_id payload plan) db.hiring_decisions
  pub applications :
      r.1.applications
      ≡ put application_id (decided_application c payload plan application) db.applications
  pub answer : r.0.id ≡ decision_id

-- A decision that was found under the request's key: nothing changes.
pub record Replayed (application_id : ℕ) (key : Option Text) (db : Db) (r : HiringResult × Db)
    : Type 0 where
  pub row : HiringDecision
  pub application : Application
  pub stored : find_hiring_by_idempotency application_id key db ≡ some (r.0.id, row)
  pub found : lookup application_id db.applications ≡ some application
  pub same : r.1 ≡ db

recover-ok :
    (application_id : ℕ) (key : Option Text) (existing : Option (ℕ × HiringDecision)) (db : Db)
    (application : Application) (r : HiringResult × Db)
    → lookup application_id db.applications ≡ some application
    → find_hiring_by_idempotency application_id key db ≡ existing
    → recover application_id existing db ≡ ok r
    → Replayed application_id key db r
unfolding recover
recover-ok application_id key none db application r f e h = ground arith
recover-ok application_id key (some (id, d)) db application r f e h = record {
  row = d;
  application = application;
  stored = ground (arith, e, f, h);
  found = f;
  same = ground (arith, f, h);
}

recover_from-ok :
    (application_id : ℕ) (key : Option Text) (x : HiringError) (db : Db) (application : Application)
    (r : HiringResult × Db)
    → lookup application_id db.applications ≡ some application
    → recover_from application_id key x db ≡ ok r
    → Replayed application_id key db r
unfolding recover_from
recover_from-ok application_id (some key) HiringError.integrity_error db application r f h =
    recover-ok application_id (some key) (find_hiring_by_idempotency application_id (some key) db)
      db application r f refl h
recover_from-ok application_id key x db application r f h = ground arith

on_integrity_error-ok :
    (c : Request) (application_id decision_id : ℕ) (application : Application)
    (payload : HiringRequest) (plan : Plan) (db : Db) (r : HiringResult × Db)
    → lookup application_id db.applications ≡ some application
    → decidable application_id application payload db ≡ ok (plan, db)
    → on_integrity_error application_id
        (given payload.idempotency_key)
        (write_decision c application_id decision_id application payload plan)
        db
      ≡ ok r
    → Replayed application_id (given payload.idempotency_key) db r
      ⊎ Decided c application_id decision_id payload db r
unfolding on_integrity_error
on_integrity_error-ok c application_id decision_id application payload plan db r f w h =
    elim (Result-cases (write_decision c application_id decision_id application payload plan db)) [
      | inl (q, v) ↦
          let v' : write_decision c application_id decision_id application payload plan db ≡ ok r =
            ground (arith, v, h) in
          let g = write_decision-ok c application_id decision_id application payload plan db r v' in
          let d = decidable-ok application_id application payload db (plan, db) w in
          inr (record {
            application = application;
            plan = plan;
            found = f;
            expected = d.1;
            open_yet = d.2;
            interviewing = d.3;
            target = d.4;
            free = g.0;
            unused = g.1;
            decisions = g.2;
            applications = g.3;
            answer = g.5;
          })
      | inr (e, v) ↦ inl (
          recover_from-ok application_id (given payload.idempotency_key) e db application r f
            (ground (arith, v, h)))
    ]

decide_after-ok :
    (c : Request) (application_id decision_id : ℕ) (application : Application)
    (payload : HiringRequest) (existing : Option (ℕ × HiringDecision)) (db : Db)
    (r : HiringResult × Db)
    → lookup application_id db.applications ≡ some application
    → find_hiring_by_idempotency application_id (given payload.idempotency_key) db ≡ existing
    → decide_after c application_id decision_id application payload existing db ≡ ok r
    → Replayed application_id (given payload.idempotency_key) db r
      ⊎ Decided c application_id decision_id payload db r
unfolding decide_after
decide_after-ok c application_id decision_id application payload (some (id, d)) db r f e h =
    inl (record {
      row = d;
      application = application;
      stored = ground (arith, e, h);
      found = f;
      same = ground (arith, h);
    })
decide_after-ok c application_id decision_id application payload none db r f e h =
    elim (Result-cases (decidable application_id application payload db)) [
      | inl ((plan, db'), w) ↦
          let same = (decidable-ok application_id application payload db (plan, db') w).0 in
          on_integrity_error-ok c application_id decision_id application payload plan db r f
            (ground (arith, w, same)) (ground (arith, w, same, h))
      | inr (e, w) ↦ ground (arith, w, h)
    ]

-- A call that commits has replayed a decision, or has written a decision.
pub create_hiring_decision-ok :
    (c : Request) (application_id decision_id : ℕ) (payload : HiringRequest) (db : Db)
    (r : HiringResult × Db)
    → create_hiring_decision c application_id decision_id payload db ≡ ok r
    → Replayed application_id (given payload.idempotency_key) db r
      ⊎ Decided c application_id decision_id payload db r
unfolding create_hiring_decision
create_hiring_decision-ok c application_id decision_id payload db r h =
    elim (Option-cases (lookup application_id db.applications)) [
      | inl n ↦ ground (arith, n, h)
      | inr (application, f) ↦
          decide_after-ok c application_id decision_id application payload
            (find_hiring_by_idempotency application_id (given payload.idempotency_key) db) db r f
            refl (ground (arith, f, h))
    ]
