-- ===== src/Hiring/Gate.antt =====
-- How a hiring decision (backend/app/services/hiring_decisions.py) opens or closes the way to an
-- offer (backend/app/services/offers.py).
use ai_recruitment.Common.{
  ℕ, ◌≡◌, none, some, [], ◌∷◌, ok, err, arith, is_some, true, false, Bool, Option-cases, inl, inr,
}
use ai_recruitment.Common.Text.{Text, is_empty}
use ai_recruitment.Common.Table.{Table, lookup, lookup-put_self, rows}
use ai_recruitment.Models.{Db, Application, Candidate, Decision, HiringDecision}
use ai_recruitment.Offers.Base.{Request, External, application_closed, given, consume_idempotency}
use ai_recruitment.Offers.Masking.{mask_email}
use ai_recruitment.Offers.Store.{find_active_offer, latest_recommend_hire, recommends_hire, newest}
use ai_recruitment.Offers.Drafts.{creatable, create_after, create_offer}
use ai_recruitment.HiringRules.{
  HiringRequest, HiringResult, decision_to_pipeline, find_hiring_by_idempotency,
}
use ai_recruitment.Hiring.{decision_row, decided_application, create_hiring_decision}
use ai_recruitment.Hiring.Effects.{Decided}
use ai_recruitment.Hiring.Promises.{fresh-Decided, Decided-lookup}

rows-found :
    (p : HiringDecision → Bool) (k : ℕ) (d : HiringDecision) (t : Table HiringDecision)
    → lookup k t ≡ some d
    → p d ≡ true
    → is_some (newest (rows p t)) ≡ true
unfolding lookup rows newest
rows-found p k d [] e h = ground arith
rows-found p k d ((i, w) ∷ t) e h = ground (arith, rows-found p k d t)

-- A recommendation that is recorded is found when an offer is made.
recommended-found :
    (c : Request) (application_id decision_id : ℕ) (payload : HiringRequest) (db : Db)
    (r : HiringResult × Db) (p : Decided c application_id decision_id payload db r)
    → payload.decision ≡ Decision.recommend_hire
    → is_some (latest_recommend_hire application_id r.1) ≡ true
unfolding latest_recommend_hire recommends_hire decision_row
recommended-found c application_id decision_id payload db r p d = ground (
  arith,
  rows-found (recommends_hire application_id) decision_id
      (decision_row c application_id payload p.plan) r.1.hiring_decisions,
  p.decisions,
  lookup-put_self decision_id (decision_row c application_id payload p.plan) db.hiring_decisions,
  d,
)

-- A fresh recommendation makes the application ready for an offer: if it has no active offer, and
-- its candidate has a name and an address that can be masked, the checks of `create_offer` pass.
pub recommend_hire-creatable :
    (c : Request) (application_id decision_id : ℕ) (payload : HiringRequest) (db : Db)
    (r : HiringResult × Db) (application : Application) (person : Candidate) (masked : Text)
    → find_hiring_by_idempotency application_id (given payload.idempotency_key) db ≡ none
    → create_hiring_decision c application_id decision_id payload db ≡ ok r
    → payload.decision ≡ Decision.recommend_hire
    → lookup application_id db.applications ≡ some application
    → application.candidate ≡ some person
    → mask_email person.email ≡ some masked
    → is_empty person.name ≡ false
    → find_active_offer application_id r.1 ≡ none
    → (latest : ℕ) × (creatable application_id r.1 ≡ ok ((latest, masked, person.name), r.1))
unfolding creatable decided_application decision_to_pipeline
recommend_hire-creatable c application_id decision_id payload db r application person masked u h d e
      q m n f =
    let p = fresh-Decided c application_id decision_id payload db r u h in
    elim (Option-cases (latest_recommend_hire application_id r.1)) [
      | inl z ↦ ground (arith, z, recommended-found c application_id decision_id payload db r p d)
      | inr (l, z) ↦ (
        l.0,
        ground (
          arith,
          z,
          f,
          e,
          q,
          m,
          n,
          d,
          p.found,
          p.target,
          p.open_yet,
          Decided-lookup c application_id decision_id payload db r p,
        ),
      )
    ]

-- A fresh rejection closes the application: no offer can be created for it without an idempotency
-- key.
pub reject-not_creatable :
    (x : External) (c c' : Request) (application_id decision_id offer_id version_id : ℕ)
    (payload : HiringRequest) (db : Db) (r : HiringResult × Db)
    → find_hiring_by_idempotency application_id (given payload.idempotency_key) db ≡ none
    → create_hiring_decision c application_id decision_id payload db ≡ ok r
    → payload.decision ≡ Decision.reject
    → create_offer x c' application_id offer_id version_id none r.1 ≡ err application_closed
unfolding create_offer create_after creatable consume_idempotency decided_application
    decision_to_pipeline
reject-not_creatable x c c' application_id decision_id offer_id version_id payload db r u h d =
    let p = fresh-Decided c application_id decision_id payload db r u h in
    ground (arith, d, p.target, Decided-lookup c application_id decision_id payload db r p)
