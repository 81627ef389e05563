-- ===== src/Offers/PromiseTests.antt =====
-- Concrete runs of single calls.
use ai_recruitment.Common.{
  ℕ, false, ◌++◌, arith, returned, ◌+◌, ◌≤◌, ◌≡◌, ◌↔◌, refl, true, none, some, [], ◌∷◌, ok, err,
}
use ai_recruitment.Common.Text.{codes, strip, text_eq}
use ai_recruitment.Common.Table.{lookup, put, find_row}
use ai_recruitment.Models.{Db, Offer, OfferVersion, OfferSendAttempt, OfferStatus, AttemptStatus}
use ai_recruitment.Crypto.{encrypt_required}
use ai_recruitment.Offers.Base.{
  OfferResult, lock_conflict, Request, consume_idempotency, store_idempotency,
}
use ai_recruitment.Offers.Store.{find_attempt_by_key, max_version_no, add_offer_version}
use ai_recruitment.Offers.Samples.{
  libraries, officer, ready_row, ready_db, running_row, version_row,
}
use ai_recruitment.Offers.Drafts.{new_version}
use ai_recruitment.Offers.Edits.{
  update_offer_draft, update_after, editable, write_edit, mark_offer_ready, void_offer,
}
use ai_recruitment.Offers.Sending.{
  OfferSendResult, stale_send_attempt_min_age, confirm_offer_send, confirm_after, sendable,
  write_sending, mark_stale_failed_offer_send_attempt, retry_offer_send, retry_after, resendable,
}
use ai_recruitment.Offers.Worker.{MailOutcome, MailSendResult, pick_up, open_claim, finish}
use ai_recruitment.Offers.Delivery.{confirm-delivered, finish-retried}
use ai_recruitment.Offers.Promises.{update-stale, confirm-repeat}
use ai_recruitment.Offers.Reclaims.{reclaim_iff, reclaimed-sent}

abbrev no_result : OfferResult
no_result = record {
  id = 0;
  status = OfferStatus.draft;
  lock_version = 0;
  version_id = none;
  version_no = none;
  content_hash = none;
  frozen = none;
}

updated : OfferResult × Db
updated =
    returned
      (update_offer_draft libraries officer 20 31 (codes "Hi") (codes "b") [] 3 none ready_db)
      (no_result, ready_db)

update-stale_example :
    (update_offer_draft libraries officer 20 32 (codes "Yo") [] [] 3 none updated.1
      ≡ err lock_conflict)
    × (mark_offer_ready libraries officer 20 3 none updated.1 ≡ err lock_conflict)
    × (void_offer libraries officer 20 (codes "left") 3 none updated.1 ≡ err lock_conflict)
unfolding updated update_offer_draft update_after editable write_edit consume_idempotency
    store_idempotency new_version add_offer_version encrypt_required lookup put find_row
    max_version_no strip
update-stale_example =
    update-stale libraries officer officer 20 31 32 3 (codes "Hi") (codes "b") [] (codes "Yo") [] []
      (codes "left") ready_db updated refl refl

abbrev no_send : OfferSendResult
no_send = record {
  offer_id = 0;
  attempt_id = 0;
  status = OfferStatus.draft;
  attempt_status = AttemptStatus.pending;
  attempt_no = 0;
  lock_version = 0;
  version_id = 0;
}

confirmed : OfferSendResult × Db
confirmed =
    returned (confirm_offer_send officer 20 30 3 40 (codes "k1") ready_db) (no_send, ready_db)

confirm-repeat_example :
    (r' : OfferSendResult × Db) × (confirm_offer_send officer 20 31 9 41 (codes "k1") confirmed.1
      ≡ ok r')
    × (r'.0.attempt_id ≡ confirmed.0.attempt_id)
    × (r'.1.offers ≡ confirmed.1.offers)
    × (r'.1.send_attempts ≡ confirmed.1.send_attempts)
unfolding confirmed confirm_offer_send confirm_after sendable write_sending lookup put find_row
confirm-repeat_example =
    confirm-repeat officer officer 20 30 31 3 9 40 41 (codes "k1") ready_db confirmed refl

abbrev sending_row : Offer
sending_row = record ready_row { status = OfferStatus.sending }

abbrev stuck_db : Db
stuck_db = record ready_db {
  offers = (20, sending_row) ∷ [];
  send_attempts = (40, running_row) ∷ [];
}

abbrev late_officer : Request
late_officer = record { actor = 9; now = 1301 }

reclaim_iff_example :
    ((r : Unit {0} × Db) × (mark_stale_failed_offer_send_attempt late_officer 20 40 1001 stuck_db
        ≡ ok r))
    ↔ ((running_row.status ≡ AttemptStatus.running)
        × (running_row.started_at ≡ some 1001)
        × (1001 + stale_send_attempt_min_age ≤ late_officer.now)
        × (sending_row.status ≡ OfferStatus.sending))
unfolding lookup
reclaim_iff_example =
    reclaim_iff late_officer 20 40 1001 running_row sending_row stuck_db refl refl refl

reclaimed : Unit {0} × Db
reclaimed =
    returned (mark_stale_failed_offer_send_attempt late_officer 20 40 1001 stuck_db) (tt, stuck_db)

abbrev success : MailSendResult
success = record { success = true; error_code = none; error_message_safe = none }

-- The officer sends the offer again, after the reclaim.
resent : OfferSendResult × Db
resent =
    returned (retry_offer_send late_officer 20 4 42 (codes "k3") reclaimed.1) (no_send, stuck_db)

resent-ok : retry_offer_send late_officer 20 4 42 (codes "k3") reclaimed.1 ≡ ok resent
unfolding resent reclaimed mark_stale_failed_offer_send_attempt retry_offer_send retry_after
    resendable write_sending find_attempt_by_key lookup put find_row strip text_eq
resent-ok = refl

reclaimed-sent_example :
    (d : Db) × (o : Offer) × (b : OfferSendAttempt) × (finish 1400 40 41
        (codes "k2")
        success
        running_row
        resent.1
      ≡ ok (MailOutcome.succeeded, d))
    × (lookup 20 d.offers ≡ some o)
    × (o.status ≡ OfferStatus.sent)
    × (lookup 42 d.send_attempts ≡ some b)
    × (b.offer_id ≡ 20)
    × (b.status ≡ AttemptStatus.pending)
unfolding reclaimed mark_stale_failed_offer_send_attempt lookup put find_attempt_by_key find_row
    text_eq
reclaimed-sent_example =
    reclaimed-sent late_officer late_officer 20 40 1001 4 42 1400 41 (codes "k3") (codes "k2")
      success running_row stuck_db reclaimed.1 resent refl resent-ok refl refl refl

confirm-delivered_example :
    (a : OfferSendAttempt) × (v : OfferVersion) × (o : Offer) × (d₁ : Db) × (d₂ : Db) × (pick_up
        1001 40 confirmed.1
      ≡ ok (MailOutcome.claimed a, d₁))
    × (open_claim 1002 40 a d₁ ≡ ok (MailOutcome.deliver v, d₁))
    × (finish 1003 40 41 (codes "k2") success a d₁ ≡ ok (MailOutcome.succeeded, d₂))
    × (lookup 20 d₂.offers ≡ some o)
    × (o.status ≡ OfferStatus.sent)
unfolding confirmed confirm_offer_send confirm_after sendable write_sending find_attempt_by_key
    lookup put find_row
confirm-delivered_example =
    confirm-delivered officer 20 30 3 40 1001 1002 1003 41 (codes "k1") (codes "k2") success
      ready_db confirmed refl refl refl

abbrev failure : MailSendResult
failure = record {
  success = false;
  error_code = some (codes "console_error");
  error_message_safe = none;
}

finish-retried_example :
    (outcome : MailOutcome) × (d : Db) × (d' : Db) × (b : OfferSendAttempt) × (wait : ℕ) × (finish
        1400 40 41
        (codes "k2")
        failure
        running_row
        stuck_db
      ≡ ok (outcome, d))
    × (d.mail_queue ≡ stuck_db.mail_queue ++ (41, wait) ∷ [])
    × (pick_up 1460 41 d ≡ ok (MailOutcome.claimed b, d'))
    × (b.attempt_no ≡ running_row.attempt_no + 1)
    × (open_claim 1461 41 b d' ≡ ok (MailOutcome.deliver version_row, d'))
    × ((failed : OfferSendAttempt) × (lookup 40 d.send_attempts ≡ some failed)
        × (failed.status ≡ AttemptStatus.failed)
        × (failed.next_retry_at ≡ some (1400 + wait)))
unfolding lookup find_attempt_by_key find_row text_eq
finish-retried_example =
    finish-retried 1400 1460 1461 40 41 (codes "k2") failure running_row running_row sending_row
      version_row stuck_db refl refl refl refl refl refl (omega arith) refl refl
