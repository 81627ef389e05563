-- ===== src/Offers/Sending/Effects.antt =====
-- The parts of the calls of backend/app/services/offers.py that send an offer, when they succeed.
use ai_recruitment.Common.{
  ◌+◌, ◌≤◌, ℕ, ◌≡◌, ◌⊎◌, inl, inr, Bool, none, some, arith, ok, Option-cases,
}
use ai_recruitment.Common.Text.{Text}
use ai_recruitment.Common.Table.{lookup, put}
use ai_recruitment.Models.{
  Db, Offer, OfferStatus, OfferVersion, OfferSendAttempt, AttemptStatus, AuditAction,
}
use ai_recruitment.Offers.Base.{Request}
use ai_recruitment.Offers.Sending.{
  stale_send_attempt_min_age, OfferSendResult, sendable, resendable, sending_offer, first_attempt,
  write_sending, replay, reclaimed_attempt, reclaimed_offer, mark_stale_failed_offer_send_attempt,
}

-- Checks change nothing, and find a ready or failed offer under the expected lock version.
pub sendable-ok :
    (offer_id version_id lock_version : ℕ) (db db' : Db) (o : Offer) (vid : ℕ) (v : OfferVersion)
    → sendable offer_id version_id lock_version db ≡ ok ((o, vid, v), db')
    → (db' ≡ db)
      × (lookup offer_id db.offers ≡ some o)
      × ((o.status ≡ OfferStatus.ready) ⊎ (o.status ≡ OfferStatus.failed))
unfolding sendable
sendable-ok offer_id version_id lock_version db db' o vid v h = ground arith

pub resendable-ok :
    (offer_id lock_version : ℕ) (db db' : Db) (o : Offer) (vid : ℕ) (v : OfferVersion)
    → resendable offer_id lock_version db ≡ ok ((o, vid, v), db')
    → (db' ≡ db) × (lookup offer_id db.offers ≡ some o) × (o.status ≡ OfferStatus.failed)
unfolding resendable
resendable-ok offer_id lock_version db db' o vid v h = ground arith

pub write_sending-ok :
    (c : Request) (action : AuditAction) (freeze : Bool) (offer_id attempt_id : ℕ) (key : Text)
    (o : Offer) (vid : ℕ) (v : OfferVersion) (db db' : Db) (r : OfferSendResult)
    → write_sending c action freeze offer_id attempt_id key (o, vid, v) db ≡ ok (r, db')
    → (lookup attempt_id db.send_attempts ≡ none)
      × (db'.offers ≡ put offer_id (sending_offer c o) db.offers)
      × (db'.send_attempts ≡ put attempt_id (first_attempt c offer_id vid key) db.send_attempts)
unfolding write_sending
write_sending-ok c action freeze offer_id attempt_id key o vid v db db' r h = ground arith

-- A repeated request writes neither offers nor attempts.
pub replay-ok :
    (offer_id id : ℕ) (a : OfferSendAttempt) (db db' : Db) (r : OfferSendResult)
    → replay offer_id (id, a) db ≡ ok (r, db')
    → (db'.offers ≡ db.offers) × (db'.send_attempts ≡ db.send_attempts)
unfolding replay
replay-ok offer_id id a db db' r h = ground arith

-- A reclaim that commits found a running attempt of a sending offer, and ended both.
pub mark_stale-ok :
    (c : Request) (offer_id attempt_id expected : ℕ) (db db' : Db)
    → mark_stale_failed_offer_send_attempt c offer_id attempt_id expected db ≡ ok (tt, db')
    → (a : OfferSendAttempt) × (o : Offer) × (lookup attempt_id db.send_attempts ≡ some a)
      × (a.status ≡ AttemptStatus.running)
      × (a.offer_id ≡ offer_id)
      × (a.started_at ≡ some expected)
      × (expected + stale_send_attempt_min_age ≤ c.now)
      × (lookup offer_id db.offers ≡ some o)
      × (o.status ≡ OfferStatus.sending)
      × (db'.offers ≡ put offer_id (reclaimed_offer c o) db.offers)
      × (db'.send_attempts ≡ put attempt_id (reclaimed_attempt c a) db.send_attempts)
unfolding mark_stale_failed_offer_send_attempt
mark_stale-ok c offer_id attempt_id expected db db' h =
    elim (Option-cases (lookup attempt_id db.send_attempts)) [
      | inl e ↦ ground arith
      | inr (a, e) ↦ elim (Option-cases (lookup offer_id db.offers)) [
        | inl e' ↦ ground arith
        | inr (o, e') ↦ (
          a,
          o,
          e,
          ground arith,
          ground arith,
          ground arith,
          ground arith,
          e',
          ground arith,
          ground arith,
          ground arith,
        )
      ]
    ]
