-- ===== src/Offers/Delivery.antt =====
-- From a confirmed offer (backend/app/services/offers.py) to a sent one, through the three phases of
-- the worker (backend/app/workers/mail_tasks.py).
use ai_recruitment.Common.{
  false, ◌==◌, ◌+◌, ◌<◌, ◌++◌, ◌∷◌, [], ℕ, ◌≡◌, refl, true, none, some, ok, Bool-cases,
  Result-cases, inl, inr, ◌||◌, arith,
}
use ai_recruitment.Common.Text.{Text, is_empty, strip}
use ai_recruitment.Common.Table.{Table, lookup, put, lookup-put_self, lookup-put, find_row-put_same}
use ai_recruitment.Models.{
  mail_max_auto_attempts, Db, Offer, OfferStatus, OfferVersion, OfferSendAttempt, AttemptStatus,
  AuditAction,
}
use ai_recruitment.Offers.Base.{Request}
use ai_recruitment.Offers.Store.{find_attempt_by_key, same_attempt_key}
use ai_recruitment.Offers.Sending.{
  OfferSendResult, sendable, write_sending, confirm_after, confirm_offer_send, sending_offer,
  first_attempt,
}
use ai_recruitment.Offers.Sending.Effects.{write_sending-ok}
use ai_recruitment.Offers.Versions.{sendable-version, write_sending-versions}
use ai_recruitment.Offers.Worker.{
  MailOutcome, MailSendResult, claimed_attempt, pick_up, pick_up_at, pick_up_found, open_claim,
  open_offer, open_version, owned, finish, finish_owned, finish_sent, finish_retry, failed_attempt,
  next_attempt, retry_countdown, sent_attempt,
}

abbrev with_attempt : ℕ → OfferSendAttempt → Db → Db
with_attempt id a db = record db { send_attempts = put id a db.send_attempts }

-- A pending attempt is claimed,
pick_up-pending :
    (now id : ℕ) (a : OfferSendAttempt) (db : Db)
    → lookup id db.send_attempts ≡ some a
    → a.status ≡ AttemptStatus.pending
    → pick_up now id db
      ≡ ok (MailOutcome.claimed (claimed_attempt now a), with_attempt id (claimed_attempt now a) db)
unfolding pick_up pick_up_found pick_up_at
pick_up-pending now id a db e p = ground (arith, e, p)

-- goes to the provider if its offer is being sent and its version is there,
open_claim-deliver :
    (now id : ℕ) (a : OfferSendAttempt) (o : Offer) (v : OfferVersion) (db : Db)
    → lookup a.offer_id db.offers ≡ some o
    → o.status ≡ OfferStatus.sending
    → lookup a.offer_version_id db.offer_versions ≡ some v
    → open_claim now id a db ≡ ok (MailOutcome.deliver v, db)
unfolding open_claim open_offer open_version
open_claim-deliver now id a o v db e s f = ground (arith, e, s, f)

-- and the provider's success makes the offer sent, whatever has become of the row of the attempt.
pub finish-succeeded :
    (now id next_id : ℕ) (key : Text) (result : MailSendResult) (held a : OfferSendAttempt)
    (o : Offer) (db : Db)
    → lookup id db.send_attempts ≡ some a
    → held.status ≡ AttemptStatus.running
    → lookup a.offer_id db.offers ≡ some o
    → o.status ≡ OfferStatus.sending
    → result.success ≡ true
    → (d : Db) × (finish now id next_id key result held db ≡ ok (MailOutcome.succeeded, d))
      × (d.offers
          ≡ put a.offer_id (record o { status = OfferStatus.sent; updated_at = now }) db.offers)
      × (d.send_attempts ≡ put id (sent_attempt now held a) db.send_attempts)
unfolding finish finish_owned finish_sent owned
finish-succeeded now id next_id key result held a o db e r f s t =
    elim (Result-cases (finish now id next_id key result held db)) [
      | inl ((m, d), w) ↦ (
        d,
        ground (arith, e, r, f, s, t, w),
        ground (arith, e, r, f, s, t, w),
        ground (arith, e, r, f, s, t, w),
      )
      | inr (y, w) ↦ ground (arith, e, r, f, s, t, w)
    ]

-- What a fresh confirmation leaves behind.
confirm-fresh :
    (c : Request) (offer_id vid lock attempt_id : ℕ) (key : Text) (db : Db)
    (r : OfferSendResult × Db)
    → confirm_offer_send c offer_id vid lock attempt_id key db ≡ ok r
    → find_attempt_by_key offer_id key db ≡ none
    → (o : Offer) × (v : OfferVersion) × (pv : ℕ) × (lookup offer_id r.1.offers
        ≡ some (sending_offer c o))
      × (lookup attempt_id r.1.send_attempts ≡ some (first_attempt c offer_id pv key))
      × (lookup pv r.1.offer_versions ≡ some v)
unfolding confirm_offer_send confirm_after
confirm-fresh c offer_id vid lock attempt_id key db r e n =
    elim (Bool-cases (is_empty (strip key))) [
      | inl b ↦ ground (arith, b, e)
      | inr b ↦ elim (Result-cases (sendable offer_id vid lock db)) [
        | inl (((o, pv, v), db'), w) ↦
            let f = sendable-version offer_id vid lock db ((o, pv, v), db') w in
            let q : write_sending c AuditAction.offer_send_confirmed true offer_id attempt_id key
                  (o, pv, v) db
                ≡ ok r =
              ground (arith, b, n, w, f.0, e) in
            let g =
              write_sending-ok c AuditAction.offer_send_confirmed true offer_id attempt_id key o pv
                v db r.1 r.0 q in
            let h =
              write_sending-versions c AuditAction.offer_send_confirmed true offer_id attempt_id key
                (o, pv, v) db r q in
            (
              o,
              record v { frozen = v.frozen || true },
              pv,
              rw (g.1) (lookup-put_self offer_id (sending_offer c o) db.offers),
              rw (g.2)
                  (lookup-put_self attempt_id (first_attempt c offer_id pv key) db.send_attempts),
              rw h (lookup-put_self pv (record v { frozen = v.frozen || true }) db.offer_versions),
            )
        | inr (y, w) ↦ ground (arith, b, n, w, e)
      ]
    ]

-- After a confirmation with an unused key that commits, a worker that picks the attempt up claims
-- it, hands a version of the offer to the provider, and on the provider's success the offer is sent.
pub confirm-delivered :
    (c : Request) (offer_id vid lock attempt_id now₁ now₂ now₃ next_id : ℕ) (key next_key : Text)
    (result : MailSendResult) (db : Db) (r : OfferSendResult × Db)
    → confirm_offer_send c offer_id vid lock attempt_id key db ≡ ok r
    → find_attempt_by_key offer_id key db ≡ none
    → result.success ≡ true
    → (a : OfferSendAttempt) × (v : OfferVersion) × (o : Offer) × (d₁ : Db) × (d₂ : Db) × (pick_up
          now₁ attempt_id r.1
        ≡ ok (MailOutcome.claimed a, d₁))
      × (open_claim now₂ attempt_id a d₁ ≡ ok (MailOutcome.deliver v, d₁))
      × (finish now₃ attempt_id next_id next_key result a d₁ ≡ ok (MailOutcome.succeeded, d₂))
      × (lookup offer_id d₂.offers ≡ some o)
      × (o.status ≡ OfferStatus.sent)
unfolding claimed_attempt first_attempt sending_offer
confirm-delivered c offer_id vid lock attempt_id now₁ now₂ now₃ next_id key next_key result db r e n
      t =
    let (o, v, pv, fo, fa, fv) = confirm-fresh c offer_id vid lock attempt_id key db r e n in
    let a = claimed_attempt now₁ (first_attempt c offer_id pv key) in
    let d₁ = with_attempt attempt_id a r.1 in
    let (d₂, w, q, _) =
      finish-succeeded now₃ attempt_id next_id next_key result a a (sending_offer c o) d₁
        (lookup-put_self attempt_id a r.1.send_attempts) refl fo refl t in
    let o' : Offer = record (sending_offer c o) { status = OfferStatus.sent; updated_at = now₃ } in
    (
      a,
      v,
      o',
      d₁,
      d₂,
      pick_up-pending now₁ attempt_id (first_attempt c offer_id pv key) r.1 fa refl,
      open_claim-deliver now₂ attempt_id a (sending_offer c o) v d₁ fo refl fv,
      w,
      rw q (lookup-put_self offer_id o' r.1.offers),
      refl,
    )

-- A row stays when another is added under a new key.
pub other_row :
    (id next_id : ℕ) (a a' b : OfferSendAttempt) (t : Table OfferSendAttempt)
    → lookup id t ≡ some a
    → lookup next_id t ≡ none
    → lookup id (put next_id b (put id a' t)) ≡ some a'
other_row id next_id a a' b t e n = elim (Bool-cases (next_id == id)) [
  | inl y ↦ ground (arith, y, e, n)
  | inr m ↦ ground (arith, m, lookup-put id next_id b (put id a' t), lookup-put_self id a' t)
]

-- What a failure with attempts left leaves behind.
finish-next :
    (now id next_id : ℕ) (key : Text) (result : MailSendResult) (held a : OfferSendAttempt)
    (o : Offer) (db : Db)
    → lookup id db.send_attempts ≡ some a
    → held.status ≡ AttemptStatus.running
    → lookup a.offer_id db.offers ≡ some o
    → o.status ≡ OfferStatus.sending
    → result.success ≡ false
    → a.attempt_no < mail_max_auto_attempts
    → lookup next_id db.send_attempts ≡ none
    → find_attempt_by_key a.offer_id key db ≡ none
    → let wait = retry_countdown a.attempt_no in
      let a' = failed_attempt now AttemptStatus.failed (some (now + wait)) result a in
      (d : Db) × (finish now id next_id key result held db
        ≡ ok (MailOutcome.failed_retry_scheduled wait next_id, d))
      × (d.mail_queue ≡ db.mail_queue ++ (next_id, wait) ∷ [])
      × (d.send_attempts ≡ put next_id (next_attempt now key a) (put id a' db.send_attempts))
      × (d.offers ≡ put a.offer_id (record o { updated_at = now }) db.offers)
      × (d.offer_versions ≡ db.offer_versions)
unfolding finish finish_owned finish_retry owned find_attempt_by_key same_attempt_key
finish-next now id next_id key result held a o db e r f s t m n y =
    let a' =
      failed_attempt now AttemptStatus.failed (some (now + retry_countdown a.attempt_no)) result
        a in
    let g =
      find_row-put_same (same_attempt_key a.offer_id key) id a' a db.send_attempts e y
        (unfold failed_attempt in refl) in
    let l = lookup-put next_id id a' db.send_attempts in
    elim (Result-cases (finish now id next_id key result held db)) [
      | inl ((u, d), q) ↦ (
        d,
        ground (arith, e, r, f, s, t, m, n, g, l, q),
        ground (arith, e, r, f, s, t, m, n, g, l, q),
        ground (arith, e, r, f, s, t, m, n, g, l, q),
        ground (arith, e, r, f, s, t, m, n, g, l, q),
        ground (arith, e, r, f, s, t, m, n, g, l, q),
      )
      | inr (u, q) ↦ ground (arith, e, r, f, s, t, m, n, g, l, q)
    ]

-- A delivery that the provider fails, of an attempt that is not the last automatic one, leaves the
-- offer in sending and adds an attempt of the same version, numbered one higher, that is queued; the
-- next worker that picks it up claims it and hands it to the provider, if its version is there. The
-- key and the id of the next attempt have to be unused.
pub finish-retried :
    (now now' now'' id next_id : ℕ) (key : Text) (result : MailSendResult)
    (held a : OfferSendAttempt) (o : Offer) (v : OfferVersion) (db : Db)
    → lookup id db.send_attempts ≡ some a
    → held.status ≡ AttemptStatus.running
    → lookup a.offer_id db.offers ≡ some o
    → o.status ≡ OfferStatus.sending
    → lookup a.offer_version_id db.offer_versions ≡ some v
    → result.success ≡ false
    → a.attempt_no < mail_max_auto_attempts
    → lookup next_id db.send_attempts ≡ none
    → find_attempt_by_key a.offer_id key db ≡ none
    → (outcome : MailOutcome) × (d : Db) × (d' : Db) × (b : OfferSendAttempt) × (wait : ℕ) × (finish
          now id next_id key result held db
        ≡ ok (outcome, d))
      × (d.mail_queue ≡ db.mail_queue ++ (next_id, wait) ∷ [])
      × (pick_up now' next_id d ≡ ok (MailOutcome.claimed b, d'))
      × (b.attempt_no ≡ a.attempt_no + 1)
      × (open_claim now'' next_id b d' ≡ ok (MailOutcome.deliver v, d'))
      × ((failed : OfferSendAttempt) × (lookup id d.send_attempts ≡ some failed)
          × (failed.status ≡ AttemptStatus.failed)
          × (failed.next_retry_at ≡ some (now + wait)))
unfolding claimed_attempt next_attempt failed_attempt
finish-retried now now' now'' id next_id key result held a o v db e r f s x t m n y =
    let wait = retry_countdown a.attempt_no in
    let a' = failed_attempt now AttemptStatus.failed (some (now + wait)) result a in
    let b = claimed_attempt now' (next_attempt now key a) in
    let (d, w, q, p, c, z) = finish-next now id next_id key result held a o db e r f s t m n y in
    let o' : Offer = record o { updated_at = now } in
    (
      MailOutcome.failed_retry_scheduled wait next_id,
      d,
      with_attempt next_id b d,
      b,
      wait,
      w,
      q,
      pick_up-pending now' next_id (next_attempt now key a) d
          (rw p (lookup-put_self next_id (next_attempt now key a) (put id a' db.send_attempts)))
          refl,
      refl,
      open_claim-deliver now'' next_id b o' v (with_attempt next_id b d)
          (rw c (lookup-put_self a.offer_id o' db.offers)) s (rw z x),
      (
        a',
        rw p (other_row id next_id a a' (next_attempt now key a) db.send_attempts e n),
        refl,
        refl,
      ),
    )
