-- ===== src/Offers/Drafts/Quiet.antt =====
-- The steps that write neither offers nor send attempts (backend/app/services/offers.py).
use ai_recruitment.Common.{ℕ, ◌≡◌, Option, arith, ok}
use ai_recruitment.Common.Text.{Text}
use ai_recruitment.Models.{Db, OfferVersion, IdempotencyKey, IdempotentAction}
use ai_recruitment.Offers.Base.{External, Request, Payload, consume_idempotency, store_idempotency}
use ai_recruitment.Offers.Store.{add_offer_version}
use ai_recruitment.Offers.Drafts.{new_version}

pub consume_idempotency-ok :
    (x : External) (c : Request) (action : IdempotentAction) (scope : ℕ) (key : Option Text)
    (payload : Payload) (db : Db) (r : Option IdempotencyKey × Db)
    → consume_idempotency x c action scope key payload db ≡ ok r
    → r.1 ≡ db
unfolding consume_idempotency
consume_idempotency-ok x c action scope key payload db r h = ground arith

pub store_idempotency-ok :
    (x : External) (c : Request) (action : IdempotentAction) (scope : ℕ) (key : Option Text)
    (payload : Payload) (db : Db) (r : Unit {0} × Db)
    → store_idempotency x c action scope key payload db ≡ ok r
    → (r.1.offers ≡ db.offers)
      × (r.1.send_attempts ≡ db.send_attempts)
      × (r.1.offer_versions ≡ db.offer_versions)
unfolding store_idempotency
store_idempotency-ok x c action scope key payload db r h = ground arith

pub new_version-ok :
    (x : External) (c : Request) (offer_id version_no : ℕ) (subject body_html body_text : Text)
    (db : Db) (r : OfferVersion × Db)
    → new_version x c offer_id version_no subject body_html body_text db ≡ ok r
    → (r.1 ≡ db) × (r.0.offer_id ≡ offer_id) × (r.0.version_no ≡ version_no)
unfolding new_version
new_version-ok x c offer_id version_no subject body_html body_text db r h = ground arith

pub add_offer_version-ok :
    (id : ℕ) (v : OfferVersion) (db : Db) (r : Unit {0} × Db)
    → add_offer_version id v db ≡ ok r
    → (r.1.offers ≡ db.offers) × (r.1.send_attempts ≡ db.send_attempts)
unfolding add_offer_version
add_offer_version-ok id v db r h = ground arith
