-- ===== src/Hiring/History.antt =====
-- What stays true over any number of calls of `create_hiring_decision`
-- (backend/app/services/hiring_decisions.py).
use ai_recruitment.Common.{ℕ, ◌≡◌, ◌≢◌, inl, inr, none, some, ok, err, arith, Result-cases}
use ai_recruitment.Common.Table.{lookup, lookup-put}
use ai_recruitment.Models.{Db, Application, PipelineStatus, Decision, HiringDecision}
use ai_recruitment.Offers.Base.{Request, given}
use ai_recruitment.HiringRules.{
  HiringError, HiringRequest, HiringResult, decision_to_pipeline, find_hiring_by_idempotency,
  decidable,
}
use ai_recruitment.Hiring.{decided_application, create_hiring_decision, decide_after}
use ai_recruitment.Hiring.Effects.{create_hiring_decision-ok, decidable-ok}
use ai_recruitment.Hiring.Promises.{create_hiring_decision-kept, fresh-Decided, Decided-lookup}

-- Calls that commit, one after the other, whoever makes them and for whichever application. One
-- that fails is rolled back, and one that is tried again is a call like the others.
pub data Calls (first : Db) : Db → Type 0 where
  no_call : Calls first first
  one_more :
      {db : Db} (c : Request) (application_id decision_id : ℕ) (payload : HiringRequest)
      (r : HiringResult × Db)
      → Calls first db
      → create_hiring_decision c application_id decision_id payload db ≡ ok r
      → Calls first r.1

-- No calls change or remove a decision that is recorded: the history of decisions only grows.
pub history-kept :
    (db db' : Db) (j : ℕ) (d : HiringDecision)
    → Calls db db'
    → lookup j db.hiring_decisions ≡ some d
    → lookup j db'.hiring_decisions ≡ some d
history-kept db db' j d no_call e = e
history-kept first db' j d (one_more {db} c application_id decision_id payload r calls h) e =
    create_hiring_decision-kept c application_id decision_id payload db r j d h
      (history-kept first db j d calls e)

-- An application that is not at the interviews.
record IsPast (application_id : ℕ) (db : Db) : Type 0 where
  application : Application
  found : lookup application_id db.applications ≡ some application
  past : application.pipeline_status ≢ PipelineStatus.interviewing

create_hiring_decision-IsPast :
    (c : Request) (application_id decision_id j : ℕ) (payload : HiringRequest) (db : Db)
    (r : HiringResult × Db)
    → create_hiring_decision c application_id decision_id payload db ≡ ok r
    → IsPast j db
    → IsPast j r.1
create_hiring_decision-IsPast c application_id decision_id j payload db r h q =
    elim (create_hiring_decision-ok c application_id decision_id payload db r h) [
      | inl p ↦ record {
        application = q.application;
        found = ground (arith, p.same, q.found);
        past = q.past;
      }
      | inr p ↦ record {
        application = q.application;
        found = ground (
          arith,
          p.applications,
          p.found,
          p.interviewing,
          q.found,
          q.past,
          lookup-put j application_id (decided_application c payload p.plan p.application)
              db.applications,
        );
        past = q.past;
      }
    ]

Calls-IsPast : (db db' : Db) (j : ℕ) → Calls db db' → IsPast j db → IsPast j db'
Calls-IsPast db db' j no_call q = q
Calls-IsPast first db' j (one_more {db} c application_id decision_id payload r calls h) q =
    create_hiring_decision-IsPast c application_id decision_id j payload db r h
      (Calls-IsPast first db j calls q)

IsPast-refused :
    (c : Request) (application_id decision_id : ℕ) (payload : HiringRequest) (db : Db)
    → IsPast application_id db
    → find_hiring_by_idempotency application_id (given payload.idempotency_key) db ≡ none
    → (e : HiringError) × (create_hiring_decision c application_id decision_id payload db ≡ err e)
unfolding create_hiring_decision decide_after
IsPast-refused c application_id decision_id payload db q u =
    elim (Result-cases (decidable application_id q.application payload db)) [
      | inl (p, w) ↦
          ground (arith, (decidable-ok application_id q.application payload db p w).3, q.past)
      | inr (e, w) ↦ (e, ground (arith, q.found, u, w))
    ]

-- A recommendation or a rejection that commits under an unused key, or without one, is the last
-- decision of its application: after any further calls that commit, a call for the same application
-- whose key is unused there, or that has none, fails, whoever makes it and whatever it asks for.
pub decided-last :
    (c c' : Request) (application_id decision_id decision_id' : ℕ)
    (payload payload' : HiringRequest) (db db' : Db) (r : HiringResult × Db)
    → find_hiring_by_idempotency application_id (given payload.idempotency_key) db ≡ none
    → create_hiring_decision c application_id decision_id payload db ≡ ok r
    → payload.decision ≢ Decision.hold
    → Calls r.1 db'
    → find_hiring_by_idempotency application_id (given payload'.idempotency_key) db' ≡ none
    → (e : HiringError) × (create_hiring_decision c' application_id decision_id' payload' db'
        ≡ err e)
unfolding decision_to_pipeline decided_application
decided-last c c' application_id decision_id decision_id' payload payload' db db' r u h n calls k =
    let p = fresh-Decided c application_id decision_id payload db r u h in
    let past : IsPast application_id r.1 = record {
      application = decided_application c payload p.plan p.application;
      found = Decided-lookup c application_id decision_id payload db r p;
      past = λ q. ground (arith, p.target, n, q);
    } in
    IsPast-refused c' application_id decision_id' payload' db'
      (Calls-IsPast r.1 db' application_id calls past) k
