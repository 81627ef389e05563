-- ===== src/Offers/Drafts/Effects.antt =====
-- What `create_offer` does to the offers (backend/app/services/offers.py).
use ai_recruitment.Common.{ℕ, ◌≡◌, Option, none, some, arith, ok, is_some, false}
use ai_recruitment.Common.Text.{Text}
use ai_recruitment.Common.Table.{lookup, put}
use ai_recruitment.Models.{Db}
use ai_recruitment.Offers.Base.{External, Request, OfferResult}
use ai_recruitment.Offers.Store.{find_active_offer}
use ai_recruitment.Offers.Drafts.{new_offer, creatable, write_created}
use ai_recruitment.Offers.Drafts.Quiet.{store_idempotency-ok, new_version-ok, add_offer_version-ok}

pub creatable-ok :
    (application_id : ℕ) (db db' : Db) (p : ℕ × Text × Text)
    → creatable application_id db ≡ ok (p, db')
    → (db' ≡ db) × (is_some (find_active_offer application_id db) ≡ false)
unfolding creatable
creatable-ok application_id db db' p h = ground arith

pub write_created-ok :
    (x : External) (c : Request) (application_id offer_id version_id : ℕ) (key : Option Text)
    (p : ℕ × Text × Text) (db db' : Db) (r : OfferResult)
    → write_created x c application_id offer_id version_id key p db ≡ ok (r, db')
    → (lookup offer_id db.offers ≡ none)
      × (find_active_offer application_id db ≡ none)
      × (db'.offers
          ≡ put offer_id
              (record (new_offer c application_id p.0 p.1 p.2) {
                current_version_id = some version_id;
              })
              (put offer_id (new_offer c application_id p.0 p.1 p.2) db.offers))
      × (db'.send_attempts ≡ db.send_attempts)
unfolding write_created
write_created-ok x c application_id offer_id version_id key p db db' r h =
    grind (arith, new_version-ok, add_offer_version-ok, store_idempotency-ok)
