-- ===== src/Offers/Drafts/Steps.antt =====
-- Creating an offer (backend/app/services/offers.py) only makes the moves of Offers/Moves.antt.
use ai_recruitment.Common.{
  ℕ, ◌≡◌, refl, inl, inr, Option, none, some, arith, ok, err, Option-cases, Result,
}
use ai_recruitment.Common.Text.{Text}
use ai_recruitment.Common.Table.{put, lookup-put_self, find_row-none}
use ai_recruitment.Models.{Db, IdempotencyKey, IdempotentAction}
use ai_recruitment.Offers.Base.{
  External, Request, Payload, Handler, OfferError, OfferResult, committed, committed-ok,
  committed-bind,
}
use ai_recruitment.Offers.Drafts.{
  new_offer, creatable, write_created, on_conflict, conflict_of, create_after, create_offer,
}
use ai_recruitment.Offers.Store.{find_active_offer, active_for}
use ai_recruitment.Offers.Drafts.Effects.{creatable-ok, write_created-ok}
use ai_recruitment.Offers.Moves.{IsReached, then, Edge, create, edit}
use ai_recruitment.Offers.Edits.Steps.{after_consume-IsReached}

-- Renaming the database's exception commits nothing else.
committed-on_conflict :
    (m : Handler OfferResult) (db : Db) → committed db (on_conflict m db) ≡ committed db (m db)
unfolding on_conflict
committed-on_conflict m db = split (m db)
  where
    split :
        (r : Result OfferError (OfferResult × Db))
        → committed db (elim r [ ok p ↦ ok p | err e ↦ err (conflict_of e) ]) ≡ committed db r
    split (ok p) = refl
    split (err e) = refl

-- From any database `base`.
module _ (base : Db) where
  write_created-IsReached :
      (x : External) (c : Request) (application_id offer_id version_id : ℕ) (key : Option Text)
      (p : ℕ × Text × Text) (db : Db)
      → IsReached base db
      → IsReached base
          (committed db (write_created x c application_id offer_id version_id key p db))
  write_created-IsReached x c application_id offer_id version_id key p db h =
      committed-ok (IsReached base) (write_created x c application_id offer_id version_id key p db)
        db
        (λ r w.
          let g = write_created-ok x c application_id offer_id version_id key p db r.1 r.0 w in
          let o = new_offer c application_id p.0 p.1 p.2 in
          unfold IsReached in
          rw (g.2, g.3)
            (then
              (then h (
                create db.offers db.send_attempts offer_id o g.0 (unfold new_offer in refl) (
                  unfold new_offer find_active_offer in
                  find_row-none (active_for application_id) db.offers g.1)))
              (edit (put offer_id o db.offers) db.send_attempts offer_id o
                (record o { current_version_id = some version_id })
                (lookup-put_self offer_id o db.offers) (unfold new_offer in Edge.redraft)
                (record { same_application = refl; lock_grows = omega arith }))))
        h

  create_after-IsReached :
      (x : External) (c : Request) (application_id offer_id version_id : ℕ) (key : Option Text)
      (reused : Option IdempotencyKey) (db : Db)
      → IsReached base db
      → IsReached base
          (committed db (create_after x c application_id offer_id version_id key reused db))
  unfolding create_after
  create_after-IsReached x c application_id offer_id version_id key (some r) db h =
      elim (Option-cases (find_active_offer application_id db)) [
        | inl e ↦ rw e h
        | inr (o, e) ↦ rw e h
      ]
  create_after-IsReached x c application_id offer_id version_id key none db h =
      committed-bind (IsReached base) (creatable application_id)
        (λ p. on_conflict (write_created x c application_id offer_id version_id key p)) db
        (λ p db' e.
          rw
            (
              (creatable-ok application_id db db' p e).0,
              committed-on_conflict (write_created x c application_id offer_id version_id key p) db,
            )
            (write_created-IsReached x c application_id offer_id version_id key p db h))
        h

  -- Creating an offer only makes moves.
  pub create_offer-IsReached :
      (x : External) (c : Request) (application_id offer_id version_id : ℕ) (key : Option Text)
      (db : Db)
      → IsReached base db
      → IsReached base (committed db (create_offer x c application_id offer_id version_id key db))
  unfolding create_offer
  create_offer-IsReached x c application_id offer_id version_id key db h =
      after_consume-IsReached base x c IdempotentAction.offer_create application_id key
        (Payload.create_payload application_id key)
        (create_after x c application_id offer_id version_id key) db
        (λ r. create_after-IsReached x c application_id offer_id version_id key r db h) h
