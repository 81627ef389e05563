-- ===== src/Offers/Worker/Effects.antt =====
-- What the phases of the mail worker (backend/app/workers/mail_tasks.py) find and write.
use ai_recruitment.Common.{ℕ, ◌+◌, ◌≡◌, none, some, arith, ok}
use ai_recruitment.Common.Text.{Text}
use ai_recruitment.Common.Table.{lookup, put}
use ai_recruitment.Models.{Db, Offer, OfferStatus, OfferSendAttempt, AttemptStatus}
use ai_recruitment.Offers.Worker.{
  MailOutcome, MailSendResult, owned, finish_retry, failed_attempt, next_attempt, retry_countdown,
}

-- Who owns an attempt holds it as running, with its offer sending.
pub owned-ok :
    (id : ℕ) (held : OfferSendAttempt) (db : Db) (a : OfferSendAttempt) (o : Offer)
    → owned id held db ≡ some (a, o)
    → (lookup id db.send_attempts ≡ some a)
      × (lookup a.offer_id db.offers ≡ some o)
      × (o.status ≡ OfferStatus.sending)
unfolding owned
owned-ok id held db a o h = ground arith

pub finish_retry-ok :
    (now id next_id : ℕ) (key : Text) (result : MailSendResult) (a : OfferSendAttempt) (o : Offer)
    (db db' : Db) (r : MailOutcome)
    → finish_retry now id next_id key result a o db ≡ ok (r, db')
    → let a' =
        failed_attempt now AttemptStatus.failed
          (some (now + retry_countdown a.attempt_no))
          result
          a in
      (lookup next_id (put id a' db.send_attempts) ≡ none)
      × (db'.offers ≡ put a.offer_id (record o { updated_at = now }) db.offers)
      × (db'.send_attempts ≡ put next_id (next_attempt now key a) (put id a' db.send_attempts))
unfolding finish_retry
finish_retry-ok now id next_id key result a o db db' r h = ground arith
