-- ===== src/Offers/Sending.antt =====
-- Sending an offer, sending it again, and reclaiming a stuck attempt
-- (backend/app/services/offers.py).
pub mod Effects
pub mod Steps
use ai_recruitment.Common.{
  ℕ, ◌+◌, ◌-◌, Bool, true, false, not, ◌&&◌, ◌||◌, Option, none, some, List, [], ◌∷◌, ◌++◌, ◌==◌,
  ltb, leb, option_eq, if◌then◌else◌, is_some, ok, err, Session, pure, raise, gets, or_raise,
  raise_if, modify, ◌>>=◌, ◌>>◌,
}
use ai_recruitment.Common.Text.{Text, codes, is_empty, strip}
use ai_recruitment.Common.Table.{lookup}
use ai_recruitment.Models.{
  Db, Offer, OfferStatus, OfferVersion, OfferSendAttempt, AttemptStatus, AuditAction, Change,
  is_ready, is_failed, is_sending, is_pending, is_running,
}
use ai_recruitment.Offers.Base.{OfferError, Handler, Request, record_audit}
use ai_recruitment.Offers.Store.{
  find_attempt_by_key, add_offer_send_attempt, save_offer, save_version, save_attempt,
}
use ai_recruitment.Offers.Drafts.{locked_offer, gated_application}

-- `STALE_SEND_ATTEMPT_MIN_AGE`, in seconds
abbrev pub stale_send_attempt_min_age : ℕ
stale_send_attempt_min_age = 300

-- `OfferSendResult`; the provider is always the console.
pub record OfferSendResult : Type 0 where
  pub offer_id : ℕ
  pub attempt_id : ℕ
  pub status : OfferStatus
  pub attempt_status : AttemptStatus
  pub attempt_no : ℕ
  pub lock_version : ℕ
  pub version_id : ℕ

-- `enqueue_mail_send_attempt`
unfoldable pub enqueue_mail : ℕ → ℕ → Handler (Unit {0})
enqueue_mail attempt_id countdown =
    modify λ db. record db { mail_queue = db.mail_queue ++ (attempt_id, countdown) ∷ [] }

send_result : ℕ → Offer → ℕ → OfferSendAttempt → OfferSendResult
send_result offer_id offer attempt_id attempt = record {
  offer_id = offer_id;
  attempt_id = attempt_id;
  status = offer.status;
  attempt_status = attempt.status;
  attempt_no = attempt.attempt_no;
  lock_version = offer.lock_version;
  version_id = attempt.offer_version_id;
}

-- A repeated request: nothing changes, but a pending attempt is dispatched once more.
unfoldable pub replay : ℕ → ℕ × OfferSendAttempt → Handler OfferSendResult
unfolding enqueue_mail send_result
replay offer_id (attempt_id, attempt) = do
  offer ← or_raise (← gets (λ db. lookup offer_id db.offers)) OfferError.offer_not_found
  elim (is_pending attempt.status) [ true ↦ enqueue_mail attempt_id 0 | false ↦ pure tt ]
  pure (send_result offer_id offer attempt_id attempt)

-- The checks of `confirm_offer_send`.
unfoldable pub sendable : ℕ → ℕ → ℕ → Handler (Offer × ℕ × OfferVersion)
unfolding locked_offer gated_application
sendable offer_id version_id lock_version = do
  offer ← locked_offer offer_id lock_version
  raise_if (not (is_ready offer.status || is_failed offer.status)) OfferError.not_sendable
  raise_if (not (option_eq offer.current_version_id (some version_id)))
      OfferError.version_not_current
  gated_application offer.application_id
  version ←
      or_raise (← gets (λ db. lookup version_id db.offer_versions)) OfferError.version_not_of_offer
  raise_if (not (version.offer_id == offer_id)) OfferError.version_not_of_offer
  pure (offer, version_id, version)

frozen_version : Option ℕ → Handler (ℕ × OfferVersion)
frozen_version none = raise OfferError.version_required
frozen_version (some vid) = do
  version ←
      or_raise (← gets (λ db. lookup vid db.offer_versions)) OfferError.frozen_version_required
  raise_if (not version.frozen) OfferError.frozen_version_required
  pure (vid, version)

-- The checks of `retry_offer_send`.
unfoldable pub resendable : ℕ → ℕ → Handler (Offer × ℕ × OfferVersion)
unfolding locked_offer gated_application frozen_version
resendable offer_id lock_version = do
  offer ← locked_offer offer_id lock_version
  raise_if (not (is_failed offer.status)) OfferError.not_failed
  raise_if (not (is_some offer.current_version_id)) OfferError.version_required
  gated_application offer.application_id
  found ← frozen_version offer.current_version_id
  pure (offer, found.0, found.1)

unfoldable pub sending_offer : Request → Offer → Offer
sending_offer c offer = record offer {
  status = OfferStatus.sending;
  lock_version = offer.lock_version + 1;
  updated_by = c.actor;
  updated_at = c.now;
}

unfoldable pub first_attempt : Request → ℕ → ℕ → Text → OfferSendAttempt
first_attempt c offer_id version_id key = record {
  offer_id = offer_id;
  offer_version_id = version_id;
  status = AttemptStatus.pending;
  attempt_no = 1;
  idempotency_key = key;
  error_code = none;
  error_message_safe = none;
  started_at = none;
  finished_at = none;
  next_retry_at = none;
  created_by = some c.actor;
  created_at = c.now;
}

-- The writes that both calls share. `freeze` is set by the first alone; the second has a version
-- that is frozen already.
unfoldable pub write_sending :
    Request → AuditAction → Bool → ℕ → ℕ → Text → Offer × ℕ × OfferVersion → Handler OfferSendResult
unfolding sending_offer first_attempt save_version save_offer add_offer_send_attempt record_audit
    enqueue_mail send_result
write_sending c action freeze offer_id attempt_id key (offer, version_id, version) = do
  save_version version_id (record version { frozen = version.frozen || freeze })
  let offer' = sending_offer c offer
  save_offer offer_id offer'
  let attempt = first_attempt c offer_id version_id key
  add_offer_send_attempt attempt_id attempt
  record_audit action true (some c.actor) offer_id (
      Change.offer_id offer_id
      ∷ Change.version_id version_id
      ∷ Change.attempt_id attempt_id
      ∷ Change.attempt_no 1
      ∷ Change.idempotency_key (some key)
      ∷ Change.lock_version offer'.lock_version
      ∷ Change.from_status offer.status
      ∷ Change.to_status offer'.status
      ∷ Change.offer_status offer'.status
      ∷ Change.recipient_email_masked offer.recipient_email_masked
      ∷ [])
  enqueue_mail attempt_id 0
  pure (send_result offer_id offer' attempt_id attempt)

unfoldable pub confirm_after :
    Request → ℕ → ℕ → ℕ → ℕ → Text → Option (ℕ × OfferSendAttempt) → Handler OfferSendResult
confirm_after c offer_id version_id lock_version attempt_id key (some existing) =
    replay offer_id existing
confirm_after c offer_id version_id lock_version attempt_id key none = do
  plan ← sendable offer_id version_id lock_version
  write_sending c AuditAction.offer_send_confirmed true offer_id attempt_id key plan

-- `confirm_offer_send`
unfoldable pub confirm_offer_send : Request → ℕ → ℕ → ℕ → ℕ → Text → Handler OfferSendResult
unfolding find_attempt_by_key strip
confirm_offer_send c offer_id version_id lock_version attempt_id key = do
  raise_if (is_empty (strip key)) OfferError.idempotency_key_required
  existing ← gets (find_attempt_by_key offer_id key)
  confirm_after c offer_id version_id lock_version attempt_id key existing

unfoldable pub retry_after :
    Request → ℕ → ℕ → ℕ → Text → Option (ℕ × OfferSendAttempt) → Handler OfferSendResult
retry_after c offer_id lock_version attempt_id key (some existing) = replay offer_id existing
retry_after c offer_id lock_version attempt_id key none = do
  plan ← resendable offer_id lock_version
  write_sending c AuditAction.offer_retry_requested false offer_id attempt_id key plan

-- `retry_offer_send`
unfoldable pub retry_offer_send : Request → ℕ → ℕ → ℕ → Text → Handler OfferSendResult
unfolding find_attempt_by_key strip
retry_offer_send c offer_id lock_version attempt_id key = do
  raise_if (is_empty (strip key)) OfferError.idempotency_key_required
  existing ← gets (find_attempt_by_key offer_id key)
  retry_after c offer_id lock_version attempt_id key existing

-- The checks of `mark_stale_failed_offer_send_attempt`; instants are seconds in UTC.
unfoldable pub stale_attempt : Request → ℕ → ℕ → ℕ → Handler (OfferSendAttempt × Offer)
stale_attempt c offer_id attempt_id expected = do
  attempt ←
      or_raise (← gets (λ db. lookup attempt_id db.send_attempts)) OfferError.attempt_not_found
  raise_if (not (attempt.offer_id == offer_id)) OfferError.attempt_not_found
  raise_if (not (is_running attempt.status)) OfferError.attempt_not_running
  started ← or_raise attempt.started_at OfferError.started_at_missing
  raise_if (not (started == expected)) OfferError.expected_mismatch
  raise_if (ltb c.now (started + stale_send_attempt_min_age)) OfferError.not_stale
  offer ← or_raise (← gets (λ db. lookup offer_id db.offers)) OfferError.offer_not_found
  raise_if (not (is_sending offer.status)) OfferError.not_sending
  pure (attempt, offer)

abbrev stale_error_code : Text
stale_error_code = codes "stale_send_attempt_recovered"

unfoldable pub reclaimed_attempt : Request → OfferSendAttempt → OfferSendAttempt
reclaimed_attempt c attempt = record attempt {
  status = AttemptStatus.dead;
  error_code = some stale_error_code;
  error_message_safe = some (codes "stale send attempt recovered");
  finished_at = some c.now;
}

unfoldable pub reclaimed_offer : Request → Offer → Offer
reclaimed_offer c offer = record offer {
  status = OfferStatus.failed;
  lock_version = offer.lock_version + 1;
  updated_by = c.actor;
  updated_at = c.now;
}

-- The conditions of the guarded update of the attempt, over the row that the checks have locked.
unfoldable pub still_stale : Request → ℕ → OfferSendAttempt → Bool
still_stale c expected attempt =
    is_running attempt.status
    && option_eq attempt.started_at (some expected)
    && leb (expected + stale_send_attempt_min_age) c.now

-- `mark_stale_failed_offer_send_attempt`
unfoldable pub mark_stale_failed_offer_send_attempt : Request → ℕ → ℕ → ℕ → Handler (Unit {0})
unfolding stale_attempt still_stale reclaimed_attempt reclaimed_offer save_attempt save_offer
    record_audit
mark_stale_failed_offer_send_attempt c offer_id attempt_id expected = do
  found ← stale_attempt c offer_id attempt_id expected
  raise_if (not (still_stale c expected found.0)) OfferError.recovery_conflict
  save_attempt attempt_id (reclaimed_attempt c found.0)
  raise_if (not (is_sending found.1.status)) OfferError.recovery_conflict
  save_offer offer_id (reclaimed_offer c found.1)
  record_audit AuditAction.offer_stale_send_attempt_recovered true (some c.actor) offer_id (
      Change.offer_id offer_id
      ∷ Change.attempt_id attempt_id
      ∷ Change.from_status found.1.status
      ∷ Change.to_status OfferStatus.failed
      ∷ Change.attempt_status AttemptStatus.dead
      ∷ Change.offer_status OfferStatus.failed
      ∷ Change.error_code (some stale_error_code)
      ∷ Change.started_at expected
      ∷ Change.age_seconds (c.now - expected)
      ∷ Change.expected_updated_at expected
      ∷ Change.finished_at c.now
      ∷ [])
