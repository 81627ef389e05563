-- ===== src/Offers/Edits/Effects.antt =====
-- What the checks and the writes of editing, readying and voiding do
-- (backend/app/services/offers.py).
use ai_recruitment.Common.{ℕ, ◌≡◌, ◌⊎◌, Option, some, arith, ok, true}
use ai_recruitment.Common.Text.{Text}
use ai_recruitment.Common.Table.{lookup, put}
use ai_recruitment.Models.{Db, Offer, OfferStatus, OfferVersion}
use ai_recruitment.Offers.Base.{External, Request, OfferResult}
use ai_recruitment.Offers.Drafts.Quiet.{store_idempotency-ok, new_version-ok, add_offer_version-ok}
use ai_recruitment.Offers.Edits.{
  editable, edited_offer, read_body, write_edit, readyable, ready_offer, write_ready, voidable,
  voided_offer, write_void,
}

pub editable-ok :
    (offer_id lock_version : ℕ) (db db' : Db) (o : Offer)
    → editable offer_id lock_version db ≡ ok (o, db')
    → (db' ≡ db)
      × (lookup offer_id db.offers ≡ some o)
      × (o.lock_version ≡ lock_version)
      × ((o.status ≡ OfferStatus.draft) ⊎ (o.status ≡ OfferStatus.ready))
unfolding editable
editable-ok offer_id lock_version db db' o h = ground arith

pub write_edit-ok :
    (x : External) (c : Request) (offer_id version_id : ℕ) (subject body_html body_text : Text)
    (lock_version : ℕ) (key : Option Text) (o : Offer) (db db' : Db) (r : OfferResult)
    → write_edit x c offer_id version_id subject body_html body_text lock_version key o db
      ≡ ok (r, db')
    → (db'.offers ≡ put offer_id (edited_offer c version_id o) db.offers)
      × (db'.send_attempts ≡ db.send_attempts)
unfolding write_edit
write_edit-ok x c offer_id version_id subject body_html body_text lock_version key o db db' r h =
    grind (arith, new_version-ok, add_offer_version-ok, store_idempotency-ok)

read_body-ok :
    (x : External) (v : OfferVersion) (db : Db) (r : (Text × Text × Text) × Db)
    → read_body x v db ≡ ok r
    → r.1 ≡ db
unfolding read_body
read_body-ok x v db r h = ground arith

pub readyable-ok :
    (x : External) (offer_id lock_version : ℕ) (db db' : Db) (p : Offer × ℕ × OfferVersion)
    → readyable x offer_id lock_version db ≡ ok (p, db')
    → (db' ≡ db)
      × (lookup offer_id db.offers ≡ some p.0)
      × (p.0.lock_version ≡ lock_version)
      × (p.0.status ≡ OfferStatus.draft)
      × (p.0.current_version_id ≡ some p.1)
      × (lookup p.1 db.offer_versions ≡ some p.2)
unfolding readyable
readyable-ok x offer_id lock_version db db' p h = grind (arith, read_body-ok)

pub write_ready-ok :
    (x : External) (c : Request) (offer_id lock_version : ℕ) (key : Option Text)
    (p : Offer × ℕ × OfferVersion) (db db' : Db) (r : OfferResult)
    → write_ready x c offer_id lock_version key p db ≡ ok (r, db')
    → (db'.offers ≡ put offer_id (ready_offer c p.0) db.offers)
      × (db'.send_attempts ≡ db.send_attempts)
      × (db'.offer_versions ≡ put p.1 (record (p.2) { frozen = true }) db.offer_versions)
unfolding write_ready
write_ready-ok x c offer_id lock_version key p db db' r h = grind (arith, store_idempotency-ok)

pub voidable-ok :
    (offer_id lock_version : ℕ) (db db' : Db) (o : Offer)
    → voidable offer_id lock_version db ≡ ok (o, db')
    → (db' ≡ db)
      × (lookup offer_id db.offers ≡ some o)
      × (o.lock_version ≡ lock_version)
      × ((o.status ≡ OfferStatus.draft)
          ⊎ (o.status ≡ OfferStatus.ready)
          ⊎ (o.status ≡ OfferStatus.failed))
unfolding voidable
voidable-ok offer_id lock_version db db' o h = ground arith

pub write_void-ok :
    (x : External) (c : Request) (offer_id : ℕ) (reason : Text) (lock_version : ℕ)
    (key : Option Text) (o : Offer) (db db' : Db) (r : OfferResult)
    → write_void x c offer_id reason lock_version key o db ≡ ok (r, db')
    → (db'.offers ≡ put offer_id (voided_offer c reason o) db.offers)
      × (db'.send_attempts ≡ db.send_attempts)
      × (db'.offer_versions ≡ db.offer_versions)
unfolding write_void
write_void-ok x c offer_id reason lock_version key o db db' r h =
    grind (arith, store_idempotency-ok)
