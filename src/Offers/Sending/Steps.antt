-- ===== src/Offers/Sending/Steps.antt =====
-- The calls of backend/app/services/offers.py that send an offer only make the moves of
-- Offers/Moves.antt.
use ai_recruitment.Common.{
  ℕ, ◌≡◌, refl, ◌⊎◌, inl, inr, Bool, Option, none, some, arith, Result-cases, Bool-cases, true,
  false,
}
use ai_recruitment.Common.Text.{Text, is_empty, strip}
use ai_recruitment.Common.Table.{lookup}
use ai_recruitment.Models.{Db, Offer, OfferStatus, OfferVersion, OfferSendAttempt, AuditAction}
use ai_recruitment.Offers.Base.{Request, committed, committed-bind}
use ai_recruitment.Offers.Store.{find_attempt_by_key}
use ai_recruitment.Offers.Sending.Effects.{
  replay-ok, sendable-ok, resendable-ok, write_sending-ok, mark_stale-ok,
}
use ai_recruitment.Offers.Sending.{
  confirm_after, retry_after, sendable, resendable, sending_offer, first_attempt, write_sending,
  replay, reclaimed_attempt, reclaimed_offer, confirm_offer_send, retry_offer_send,
  mark_stale_failed_offer_send_attempt,
}
use ai_recruitment.Offers.Moves.{IsReached, then, send, settle}

-- From any database `base`.
module _ (base : Db) where
  replay-IsReached :
      (offer_id id : ℕ) (a : OfferSendAttempt) (db : Db)
      → IsReached base db
      → IsReached base (committed db (replay offer_id (id, a) db))
  unfolding IsReached
  replay-IsReached offer_id id a db h = elim (Result-cases (replay offer_id (id, a) db)) [
    | inl (r, w) ↦ let f = replay-ok offer_id id a db r.1 r.0 w in rw (w, f.0, f.1) h
    | inr (x, w) ↦ rw w h
  ]

  write_sending-IsReached :
      (c : Request) (action : AuditAction) (freeze : Bool) (offer_id attempt_id : ℕ) (key : Text)
      (o : Offer) (vid : ℕ) (v : OfferVersion) (db : Db)
      → lookup offer_id db.offers ≡ some o
      → (o.status ≡ OfferStatus.ready) ⊎ (o.status ≡ OfferStatus.failed)
      → IsReached base db
      → IsReached base
          (committed db (write_sending c action freeze offer_id attempt_id key (o, vid, v) db))
  unfolding IsReached
  write_sending-IsReached c action freeze offer_id attempt_id key o vid v db e s h =
      elim (Result-cases (write_sending c action freeze offer_id attempt_id key (o, vid, v) db)) [
        | inl (r, w) ↦
            let f = write_sending-ok c action freeze offer_id attempt_id key o vid v db r.1 r.0 w in
            rw (w, f.1, f.2)
              (then h (
                send db.offers db.send_attempts offer_id attempt_id o (sending_offer c o)
                  (first_attempt c offer_id vid key) e s (unfold sending_offer in refl)
                  (unfold sending_offer in
                    record { same_application = refl; lock_grows = omega arith })
                  f.0 (unfold first_attempt in refl) (unfold first_attempt in refl)
                  (unfold first_attempt in refl)))
        | inr (x, w) ↦ rw w h
      ]

  confirm_after-IsReached :
      (c : Request) (offer_id version_id lock_version attempt_id : ℕ) (key : Text)
      (existing : Option (ℕ × OfferSendAttempt)) (db : Db)
      → IsReached base db
      → IsReached base (
          committed db
            (confirm_after c offer_id version_id lock_version attempt_id key existing db))
  unfolding confirm_after
  confirm_after-IsReached c offer_id version_id lock_version attempt_id key (some (id, a)) db h =
      replay-IsReached offer_id id a db h
  confirm_after-IsReached c offer_id version_id lock_version attempt_id key none db h =
      committed-bind (IsReached base) (sendable offer_id version_id lock_version)
        (write_sending c AuditAction.offer_send_confirmed true offer_id attempt_id key) db
        (λ p db' e.
          let f = sendable-ok offer_id version_id lock_version db db' p.0 p.1 p.2 e in
          rw (f.0) (
            write_sending-IsReached c AuditAction.offer_send_confirmed true offer_id attempt_id key
              p.0 p.1 p.2 db f.1 f.2 h))
        h

  -- Confirming a send only makes moves, whether it sends, repeats or raises.
  pub confirm_offer_send-IsReached :
      (c : Request) (offer_id version_id lock_version attempt_id : ℕ) (key : Text) (db : Db)
      → IsReached base db
      → IsReached base
          (committed db (confirm_offer_send c offer_id version_id lock_version attempt_id key db))
  unfolding confirm_offer_send
  confirm_offer_send-IsReached c offer_id version_id lock_version attempt_id key db h =
      elim (Bool-cases (is_empty (strip key))) [
        | inl e ↦ rw e h
        | inr e ↦ rw e (
            confirm_after-IsReached c offer_id version_id lock_version attempt_id key
              (find_attempt_by_key offer_id key db) db h)
      ]

  retry_after-IsReached :
      (c : Request) (offer_id lock_version attempt_id : ℕ) (key : Text)
      (existing : Option (ℕ × OfferSendAttempt)) (db : Db)
      → IsReached base db
      → IsReached base
          (committed db (retry_after c offer_id lock_version attempt_id key existing db))
  unfolding retry_after
  retry_after-IsReached c offer_id lock_version attempt_id key (some (id, a)) db h =
      replay-IsReached offer_id id a db h
  retry_after-IsReached c offer_id lock_version attempt_id key none db h =
      committed-bind (IsReached base) (resendable offer_id lock_version)
        (write_sending c AuditAction.offer_retry_requested false offer_id attempt_id key) db
        (λ p db' e.
          let f = resendable-ok offer_id lock_version db db' p.0 p.1 p.2 e in
          rw (f.0) (
            write_sending-IsReached c AuditAction.offer_retry_requested false offer_id attempt_id
              key p.0 p.1 p.2 db f.1 (inr f.2) h))
        h

  -- Sending again only makes moves.
  pub retry_offer_send-IsReached :
      (c : Request) (offer_id lock_version attempt_id : ℕ) (key : Text) (db : Db)
      → IsReached base db
      → IsReached base (committed db (retry_offer_send c offer_id lock_version attempt_id key db))
  unfolding retry_offer_send
  retry_offer_send-IsReached c offer_id lock_version attempt_id key db h =
      elim (Bool-cases (is_empty (strip key))) [
        | inl e ↦ rw e h
        | inr e ↦ rw e (
            retry_after-IsReached c offer_id lock_version attempt_id key
              (find_attempt_by_key offer_id key db) db h)
      ]

  -- Reclaiming a stuck attempt only makes moves.
  pub mark_stale-IsReached :
      (c : Request) (offer_id attempt_id expected : ℕ) (db : Db)
      → IsReached base db
      → IsReached base
          (committed db (mark_stale_failed_offer_send_attempt c offer_id attempt_id expected db))
  unfolding IsReached
  mark_stale-IsReached c offer_id attempt_id expected db h =
      elim (Result-cases (mark_stale_failed_offer_send_attempt c offer_id attempt_id expected db)) [
        | inl (r, w) ↦
            let (a, o, e, run, i, st, age, e', s, p, q) =
              mark_stale-ok c offer_id attempt_id expected db r.1 w in
            rw (w, p, q)
              (then h (
                settle db.offers db.send_attempts offer_id attempt_id o (reclaimed_offer c o) a
                  (reclaimed_attempt c a) e' s
                  (unfold reclaimed_offer in
                    record { same_application = refl; lock_grows = omega arith })
                  e i (unfold reclaimed_attempt in record { same_offer = refl; same_number = refl })
                  (inl (unfold reclaimed_offer in refl, unfold reclaimed_attempt in refl))))
        | inr (x, w) ↦ rw w h
      ]
