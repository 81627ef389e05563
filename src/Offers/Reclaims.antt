-- ===== src/Offers/Reclaims.antt =====
-- A stuck delivery that an officer reclaims (`mark_stale_failed_offer_send_attempt` of
-- backend/app/services/offers.py), and the worker that comes back late
-- (backend/app/workers/mail_tasks.py).
use ai_recruitment.Common.{
  ℕ, ◌+◌, ◌≤◌, ◌≡◌, ◌↔◌, refl, true, false, none, some, Result-cases, Bool-cases, inl, inr, ok,
  arith,
}
use ai_recruitment.Common.Text.{Text, is_empty, strip}
use ai_recruitment.Common.Table.{Table, lookup, put, lookup-put, lookup-put_self}
use ai_recruitment.Models.{Db, Offer, OfferStatus, OfferSendAttempt, AttemptStatus, AuditAction}
use ai_recruitment.Offers.Base.{Request}
use ai_recruitment.Offers.Store.{find_attempt_by_key}
use ai_recruitment.Offers.Sending.{
  stale_send_attempt_min_age, reclaimed_attempt, mark_stale_failed_offer_send_attempt,
  OfferSendResult, resendable, retry_after, retry_offer_send, sending_offer, first_attempt,
}
use ai_recruitment.Offers.Sending.Effects.{mark_stale-ok, resendable-ok, write_sending-ok}
use ai_recruitment.Offers.Worker.{MailOutcome, MailSendResult, finish, sent_attempt}
use ai_recruitment.Offers.Delivery.{finish-succeeded}

-- An attempt of an offer can be reclaimed exactly if it runs, was started when the caller says, at
-- least the minimal age ago, and the offer is being sent.
pub reclaim_iff :
    (c : Request) (offer_id attempt_id expected : ℕ) (a : OfferSendAttempt) (o : Offer) (db : Db)
    → lookup attempt_id db.send_attempts ≡ some a
    → a.offer_id ≡ offer_id
    → lookup offer_id db.offers ≡ some o
    → ((r : Unit {0} × Db) × (mark_stale_failed_offer_send_attempt c offer_id attempt_id expected db
          ≡ ok r))
      ↔ ((a.status ≡ AttemptStatus.running)
          × (a.started_at ≡ some expected)
          × (expected + stale_send_attempt_min_age ≤ c.now)
          × (o.status ≡ OfferStatus.sending))
unfolding mark_stale_failed_offer_send_attempt
reclaim_iff c offer_id attempt_id expected a o db e i f = (
  λ (r, w). ground (arith, e, i, f, w),
  λ (p, q, m, s).
      elim (Result-cases (mark_stale_failed_offer_send_attempt c offer_id attempt_id expected db)) [
        | inl w ↦ w
        | inr (y, w) ↦ ground (arith, e, i, f, p, q, m, s, w)
      ],
)

kept_row :
    (id new_id : ℕ) (a b : OfferSendAttempt) (t : Table OfferSendAttempt)
    → lookup id t ≡ some a
    → lookup new_id t ≡ none
    → lookup id (put new_id b t) ≡ some a
kept_row id new_id a b t e n = ground (arith, e, n, lookup-put id new_id b t)

later_row :
    (id new_id : ℕ) (a a' b : OfferSendAttempt) (t : Table OfferSendAttempt)
    → lookup id t ≡ some a
    → lookup new_id t ≡ none
    → lookup new_id (put id a' (put new_id b t)) ≡ some b
later_row id new_id a a' b t e n =
    ground (arith, e, n, lookup-put new_id id a' (put new_id b t), lookup-put_self new_id b t)

-- What a retry with a new key leaves behind.
retry-fresh :
    (c : Request) (offer_id lock attempt_id : ℕ) (key : Text) (db : Db) (r : OfferSendResult × Db)
    → retry_offer_send c offer_id lock attempt_id key db ≡ ok r
    → find_attempt_by_key offer_id key db ≡ none
    → (o : Offer) × (vid : ℕ) × (lookup offer_id r.1.offers ≡ some (sending_offer c o))
      × (lookup attempt_id db.send_attempts ≡ none)
      × (r.1.send_attempts ≡ put attempt_id (first_attempt c offer_id vid key) db.send_attempts)
unfolding retry_offer_send retry_after
retry-fresh c offer_id lock attempt_id key db r e n = elim (Bool-cases (is_empty (strip key))) [
  | inl b ↦ ground (arith, b, e)
  | inr b ↦ elim (Result-cases (resendable offer_id lock db)) [
    | inl (((o, vid, v), db'), w) ↦
        let f = resendable-ok offer_id lock db db' o vid v w in
        let g =
          write_sending-ok c AuditAction.offer_retry_requested false offer_id attempt_id key o vid v
            db r.1 r.0 (ground (arith, b, n, w, f.0, e)) in
        (o, vid, rw (g.1) (lookup-put_self offer_id (sending_offer c o) db.offers), g.0, g.2)
    | inr (y, w) ↦ ground (arith, b, n, w, e)
  ]
]

-- A worker whose attempt was reclaimed, and whose offer was sent again by a retry with a new key, does
-- not notice, since it holds the attempt as running: on the provider's success the offer becomes
-- sent, and the attempt of the retry stays pending.
pub reclaimed-sent :
    (c c' : Request) (offer_id attempt_id expected lock new_id now next_id : ℕ)
    (key next_key : Text) (result : MailSendResult) (held : OfferSendAttempt) (db db' : Db)
    (r : OfferSendResult × Db)
    → mark_stale_failed_offer_send_attempt c offer_id attempt_id expected db ≡ ok (tt, db')
    → retry_offer_send c' offer_id lock new_id key db' ≡ ok r
    → find_attempt_by_key offer_id key db' ≡ none
    → held.status ≡ AttemptStatus.running
    → result.success ≡ true
    → (d : Db) × (o : Offer) × (b : OfferSendAttempt) × (finish now attempt_id next_id next_key
          result held r.1
        ≡ ok (MailOutcome.succeeded, d))
      × (lookup offer_id d.offers ≡ some o)
      × (o.status ≡ OfferStatus.sent)
      × (lookup new_id d.send_attempts ≡ some b)
      × (b.offer_id ≡ offer_id)
      × (b.status ≡ AttemptStatus.pending)
unfolding reclaimed_attempt sending_offer first_attempt
reclaimed-sent c c' offer_id attempt_id expected lock new_id now next_id key next_key result held db
      db' r e w y q t =
    let (a, o, f, s, i, st, m, g, v, p, u) =
      mark_stale-ok c offer_id attempt_id expected db db' e in
    let a' = reclaimed_attempt c a in
    let found : lookup attempt_id db'.send_attempts ≡ some a' =
      rw u (lookup-put_self attempt_id a' db.send_attempts) in
    let (o', vid, x, n, z) = retry-fresh c' offer_id lock new_id key db' r w y in
    let b = first_attempt c' offer_id vid key in
    let kept : lookup attempt_id r.1.send_attempts ≡ some a' =
      rw z (kept_row attempt_id new_id a' b db'.send_attempts found n) in
    let (d, h, k, l) =
      finish-succeeded now attempt_id next_id next_key result held a' (sending_offer c' o') r.1 kept
        q (rw i x) refl t in
    let o'' : Offer = record (sending_offer c' o') {
      status = OfferStatus.sent;
      updated_at = now;
    } in
    (
      d,
      o'',
      b,
      h,
      rw (k, i) (lookup-put_self offer_id o'' r.1.offers),
      refl,
      rw (l, z)
          (later_row attempt_id new_id a' (sent_attempt now held a') b db'.send_attempts found n),
      refl,
      refl,
    )
