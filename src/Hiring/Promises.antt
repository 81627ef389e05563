-- ===== src/Hiring/Promises.antt =====
-- What `create_hiring_decision` of backend/app/services/hiring_decisions.py promises its callers.
use ai_recruitment.Common.{ℕ, ◌≡◌, inl, inr, refl, none, some, ok, arith, false}
use ai_recruitment.Common.Text.{Text, is_empty, text_eq_iff}
use ai_recruitment.Common.Table.{lookup, lookup-put, lookup-put_self, find_row-put_new}
use ai_recruitment.Models.{Db, Application, HiringDecision}
use ai_recruitment.Offers.Base.{Request, given}
use ai_recruitment.HiringRules.{HiringRequest, HiringResult, find_hiring_by_idempotency, same_key}
use ai_recruitment.Hiring.{decision_row, decided_application, create_hiring_decision, decide_after}
use ai_recruitment.Hiring.Effects.{Decided, create_hiring_decision-ok}

pub create_hiring_decision-kept :
    (c : Request) (application_id decision_id : ℕ) (payload : HiringRequest) (db : Db)
    (r : HiringResult × Db) (j : ℕ) (d : HiringDecision)
    → create_hiring_decision c application_id decision_id payload db ≡ ok r
    → lookup j db.hiring_decisions ≡ some d
    → lookup j r.1.hiring_decisions ≡ some d
create_hiring_decision-kept c application_id decision_id payload db r j d h e =
    elim (create_hiring_decision-ok c application_id decision_id payload db r h) [
      | inl p ↦ ground (arith, p.same, e)
      | inr p ↦ ground (
        arith,
        p.decisions,
        p.free,
        e,
        lookup-put j decision_id (decision_row c application_id payload p.plan) db.hiring_decisions,
      )
    ]

-- A call whose key is unused, or that has none, writes a decision if it commits at all.
pub fresh-Decided :
    (c : Request) (application_id decision_id : ℕ) (payload : HiringRequest) (db : Db)
    (r : HiringResult × Db)
    → find_hiring_by_idempotency application_id (given payload.idempotency_key) db ≡ none
    → create_hiring_decision c application_id decision_id payload db ≡ ok r
    → Decided c application_id decision_id payload db r
fresh-Decided c application_id decision_id payload db r n h =
    elim (create_hiring_decision-ok c application_id decision_id payload db r h) [
      | inl p ↦ ground (arith, p.stored, n)
      | inr p ↦ p
    ]

-- The decision that a call with a key returns stands under that key.
keyed-stored :
    (c : Request) (application_id decision_id : ℕ) (payload : HiringRequest) (key : Text) (db : Db)
    (r : HiringResult × Db)
    → payload.idempotency_key ≡ some key
    → is_empty key ≡ false
    → create_hiring_decision c application_id decision_id payload db ≡ ok r
    → (d : HiringDecision) × (application : Application) × (find_hiring_by_idempotency
          application_id
          (some key)
          r.1
        ≡ some (r.0.id, d))
      × (lookup application_id r.1.applications ≡ some application)
unfolding find_hiring_by_idempotency same_key decision_row
keyed-stored c application_id decision_id payload key db r k b h =
    elim (create_hiring_decision-ok c application_id decision_id payload db r h) [
      | inl p ↦ (
        p.row,
        p.application,
        ground (arith, p.stored, p.same, k, b),
        ground (arith, p.found, p.same),
      )
      | inr p ↦ (
        decision_row c application_id payload p.plan,
        decided_application c payload p.plan p.application,
        ground (
          arith,
          p.decisions,
          p.answer,
          k,
          (text_eq_iff key key).1,
          find_row-put_new (same_key application_id key) decision_id
              (decision_row c application_id payload p.plan) db.hiring_decisions p.free,
          p.unused,
        ),
        ground (
          arith,
          p.applications,
          lookup-put_self application_id (decided_application c payload p.plan p.application)
              db.applications,
        ),
      )
    ]

-- Behind a call with a key that commits, a second call with the same key, not empty, whatever else
-- it asks for, returns the decision of the first and changes nothing.
pub decision-repeat :
    (c c' : Request) (application_id decision_id decision_id' : ℕ)
    (payload payload' : HiringRequest) (key : Text) (db : Db) (r : HiringResult × Db)
    → payload.idempotency_key ≡ some key
    → payload'.idempotency_key ≡ some key
    → is_empty key ≡ false
    → create_hiring_decision c application_id decision_id payload db ≡ ok r
    → (r' : HiringResult) × (create_hiring_decision c' application_id decision_id' payload' r.1
        ≡ ok (r', r.1))
      × (r'.id ≡ r.0.id)
unfolding create_hiring_decision decide_after
decision-repeat c c' application_id decision_id decision_id' payload payload' key db r k k' b h =
    let (d, application, s, f) = keyed-stored c application_id decision_id payload key db r k b h in
    (
      record { id = r.0.id; row = d; lock_version = application.lock_version },
      ground (arith, s, f, k', b),
      refl,
    )

-- The application after a decision.
pub Decided-lookup :
    (c : Request) (application_id decision_id : ℕ) (payload : HiringRequest) (db : Db)
    (r : HiringResult × Db) (p : Decided c application_id decision_id payload db r)
    → lookup application_id r.1.applications
      ≡ some (decided_application c payload p.plan p.application)
Decided-lookup c application_id decision_id payload db r p = ground (
  arith,
  p.applications,
  lookup-put_self application_id (decided_application c payload p.plan p.application)
      db.applications,
)
