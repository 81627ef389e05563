-- ===== src/Offers/Worker.antt =====
-- The mail worker (backend/app/workers/mail_tasks.py). `_handle_mail_attempt` commits after the
-- claim and sends in between, so it is three functions: what runs up to the claim's commit, what
-- runs up to the provider's call, and what runs after it.
pub mod Effects
pub mod Steps
use ai_recruitment.Common.{
  ℕ, ◌+◌, Bool, true, false, not, ◌&&◌, Option, none, some, List, [], ◌∷◌, ◌==◌, ltb, take,
  if◌then◌else◌, or_else, nulled, ok, err, Session, pure, raise, gets, modify, ◌>>=◌, ◌>>◌,
}
use ai_recruitment.Common.Text.{Text, codes, is_empty}
use ai_recruitment.Common.Table.{lookup}
use ai_recruitment.Models.{
  Db, Offer, OfferStatus, OfferVersion, OfferSendAttempt, AttemptStatus, AuditAction, Change,
  is_sending, is_running, mail_max_auto_attempts,
}
use ai_recruitment.Offers.Base.{OfferError, Handler, given, record_audit}
use ai_recruitment.Offers.Store.{add_offer_send_attempt, save_offer, save_attempt}
use ai_recruitment.Offers.Sending.{enqueue_mail}

-- The dictionary that a delivery returns; `claimed` and `deliver` go on to the next phase.
pub data MailOutcome : Type 0 where
  missing skipped succeeded dead : MailOutcome
  noop : AttemptStatus → MailOutcome
  skipped_stale_owner : Option AttemptStatus → Option OfferStatus → MailOutcome
  failed_retry_scheduled : ℕ → ℕ → MailOutcome
  claimed : OfferSendAttempt → MailOutcome
  deliver : OfferVersion → MailOutcome

-- backend/app/services/mail_providers/base.py
pub record MailSendResult : Type 0 where
  pub success : Bool
  pub error_code : Option Text
  pub error_message_safe : Option Text

abbrev pub offer_status_of : Option Offer → Option OfferStatus
offer_status_of none = none
offer_status_of (some o) = some o.status

-- The status of the object that a worker holds, if the row is there.
abbrev pub observed_status : OfferSendAttempt → Option OfferSendAttempt → Option AttemptStatus
observed_status held none = none
observed_status held (some row) = some held.status

-- `offer is not None and offer.status == OFFER_STATUS_SENDING`
abbrev pub is_open : Option Offer → Bool
is_open none = false
is_open (some o) = is_sending o.status

-- `_claim_pending_attempt`, of an attempt that is pending
unfoldable pub claimed_attempt : ℕ → OfferSendAttempt → OfferSendAttempt
claimed_attempt now a = record a { status = AttemptStatus.running; started_at = some now }

-- The branches of `_handle_mail_attempt` on the attempt's status.
unfoldable pub pick_up_at : ℕ → ℕ → OfferSendAttempt → AttemptStatus → Handler MailOutcome
unfolding claimed_attempt save_attempt
pick_up_at now id a AttemptStatus.pending = do
  save_attempt id (claimed_attempt now a)
  pure (MailOutcome.claimed (claimed_attempt now a))
pick_up_at now id a AttemptStatus.running = do
  offer ← gets (λ db. lookup a.offer_id db.offers)
  pure (
      if is_open offer
      then MailOutcome.skipped
      else MailOutcome.skipped_stale_owner (some a.status) (offer_status_of offer))
pick_up_at now id a AttemptStatus.succeeded = pure (MailOutcome.noop a.status)
pick_up_at now id a AttemptStatus.failed = pure (MailOutcome.noop a.status)
pick_up_at now id a AttemptStatus.dead = pure (MailOutcome.noop a.status)

unfoldable pub pick_up_found : ℕ → ℕ → Option OfferSendAttempt → Handler MailOutcome
pick_up_found now id none = pure MailOutcome.missing
pick_up_found now id (some a) = pick_up_at now id a a.status

-- The first phase, up to the commit of the claim.
unfoldable pub pick_up : ℕ → ℕ → Handler MailOutcome
pick_up now id = do attempt ← gets (λ db. lookup id db.send_attempts); pick_up_found now id attempt

-- `_reassert_sending_ownership_for_terminal`. The session does not expire its objects, so the select
-- of the attempt locks its row, and gives back the object that the worker holds: the status is that
-- of the claim. Updates go to the row. The offer was locked by the read before the provider's call.
-- An attempt keeps its offer and its number, so these are taken from the row.
owned_with : OfferSendAttempt → Option OfferSendAttempt → Db → Option (OfferSendAttempt × Offer)
owned_with held none db = none
owned_with held (some row) db =
    if not (is_running held.status) then none else elim (lookup row.offer_id db.offers) [
      | none ↦ none
      | some o ↦ (if is_sending o.status then some (row, o) else none)
    ]

-- With the object that the worker holds.
unfoldable pub owned : ℕ → OfferSendAttempt → Db → Option (OfferSendAttempt × Offer)
unfolding owned_with
owned id held db = owned_with held (lookup id db.send_attempts) db

unfoldable pub dead_attempt : ℕ → Text → Text → OfferSendAttempt → OfferSendAttempt
dead_attempt now code message a = record a {
  status = AttemptStatus.dead;
  error_code = some code;
  error_message_safe = some message;
  finished_at = some now;
}

-- The offer is gone: the attempt dies, if the object that the worker holds runs.
unfoldable pub bury_orphan :
    ℕ → ℕ → OfferSendAttempt → Option OfferSendAttempt → Handler MailOutcome
unfolding dead_attempt save_attempt
bury_orphan now id held none = pure MailOutcome.dead
bury_orphan now id held (some a) = do
  elim (is_running held.status) [
    | true ↦ save_attempt id (dead_attempt now (codes "offer_missing") (codes "offer missing") a)
    | false ↦ pure tt
  ]
  pure MailOutcome.dead

-- The version is gone: the attempt dies and the offer fails, if this worker still owns them.
unfoldable pub bury_unversioned : ℕ → ℕ → Option (OfferSendAttempt × Offer) → Handler MailOutcome
unfolding dead_attempt save_attempt save_offer
bury_unversioned now id none =
    pure (MailOutcome.skipped_stale_owner (some AttemptStatus.running) none)
bury_unversioned now id (some (a, o)) = do
  save_attempt id (dead_attempt now (codes "version_missing") (codes "version missing") a)
  save_offer a.offer_id (record o { status = OfferStatus.failed; updated_at = now })
  pure MailOutcome.dead

unfoldable pub open_version : ℕ → ℕ → OfferSendAttempt → Option OfferVersion → Handler MailOutcome
unfolding owned
open_version now id held (some v) = pure (MailOutcome.deliver v)
open_version now id held none = do mine ← gets (owned id held); bury_unversioned now id mine

unfoldable pub open_offer : ℕ → ℕ → OfferSendAttempt → Option Offer → Handler MailOutcome
open_offer now id a none = do
  again ← gets (λ db. lookup id db.send_attempts)
  bury_orphan now id a again
open_offer now id a (some o) =
    if not (is_sending o.status)
    then pure (MailOutcome.skipped_stale_owner (some a.status) (some o.status))
    else do
      version ← gets (λ db. lookup a.offer_version_id db.offer_versions)
      open_version now id a version

-- The second phase, from the claim's commit to the provider's call, with the claimed attempt.
unfoldable pub open_claim : ℕ → ℕ → OfferSendAttempt → Handler MailOutcome
open_claim now id a = do offer ← gets (λ db. lookup a.offer_id db.offers); open_offer now id a offer

-- `MAIL_RETRY_COUNTDOWNS_SECONDS.get(attempt_no) or 60`
unfoldable pub retry_countdown : ℕ → ℕ
retry_countdown n = if n == 1 then 60 else if n == 2 then 300 else if n == 3 then 1800 else 60

-- The row after a success, with the object that the worker holds.
unfoldable pub sent_attempt : ℕ → OfferSendAttempt → OfferSendAttempt → OfferSendAttempt
sent_attempt now held a = record a {
  status = AttemptStatus.succeeded;
  finished_at = some now;
  error_code = nulled held.error_code a.error_code;
  error_message_safe = nulled held.error_message_safe a.error_message_safe;
}

-- The failed attempt; its status is `dead` at the last one, which schedules no other.
unfoldable pub failed_attempt :
    ℕ → AttemptStatus → Option ℕ → MailSendResult → OfferSendAttempt → OfferSendAttempt
failed_attempt now status next_retry result a = record a {
  status = status;
  error_code = some (or_else (given result.error_code) (codes "console_error"));
  error_message_safe =
      some (take 512 (or_else (given result.error_message_safe) (codes "send failed")));
  finished_at = some now;
  next_retry_at = next_retry;
}

unfoldable pub next_attempt : ℕ → Text → OfferSendAttempt → OfferSendAttempt
next_attempt now key a = record {
  offer_id = a.offer_id;
  offer_version_id = a.offer_version_id;
  status = AttemptStatus.pending;
  attempt_no = a.attempt_no + 1;
  idempotency_key = key;
  error_code = none;
  error_message_safe = none;
  started_at = none;
  finished_at = none;
  next_retry_at = none;
  created_by = none;
  created_at = now;
}

finished_audit : Bool → ℕ → OfferSendAttempt → OfferStatus → Handler (Unit {0})
unfolding record_audit
finished_audit success id a status =
    record_audit AuditAction.offer_send_attempt_finished success none a.offer_id (
      Change.offer_id a.offer_id
      ∷ Change.attempt_id id
      ∷ Change.attempt_status a.status
      ∷ Change.error_code a.error_code
      ∷ Change.offer_status status
      ∷ [])

unfoldable pub finish_sent :
    ℕ → ℕ → OfferSendAttempt → OfferSendAttempt → Offer → Handler MailOutcome
unfolding sent_attempt save_attempt save_offer finished_audit
finish_sent now id held a o = do
  save_attempt id (sent_attempt now held a)
  save_offer a.offer_id (record o { status = OfferStatus.sent; updated_at = now })
  finished_audit true id (sent_attempt now held held) OfferStatus.sent
  pure MailOutcome.succeeded

-- A failure with attempts left: another attempt is added and scheduled.
unfoldable pub finish_retry :
    ℕ → ℕ → ℕ → Text → MailSendResult → OfferSendAttempt → Offer → Handler MailOutcome
unfolding failed_attempt next_attempt retry_countdown save_attempt save_offer add_offer_send_attempt
    finished_audit enqueue_mail
finish_retry now id next_id key result a o = do
  let countdown = retry_countdown a.attempt_no
  let a' = failed_attempt now AttemptStatus.failed (some (now + countdown)) result a
  save_attempt id a'
  add_offer_send_attempt next_id (next_attempt now key a)
  save_offer a.offer_id (record o { updated_at = now })
  finished_audit false id a' o.status
  enqueue_mail next_id countdown
  pure (MailOutcome.failed_retry_scheduled countdown next_id)

unfoldable pub finish_dead : ℕ → ℕ → MailSendResult → OfferSendAttempt → Offer → Handler MailOutcome
unfolding failed_attempt save_attempt save_offer finished_audit
finish_dead now id result a o = do
  let a' = failed_attempt now AttemptStatus.dead a.next_retry_at result a
  save_attempt id a'
  save_offer a.offer_id (record o { status = OfferStatus.failed; updated_at = now })
  finished_audit false id a' OfferStatus.failed
  pure MailOutcome.dead

unfoldable pub finish_owned :
    ℕ
    → ℕ
    → ℕ
    → Text
    → MailSendResult
    → OfferSendAttempt
    → Option (OfferSendAttempt × Offer)
    → Handler MailOutcome
finish_owned now id next_id key result held none = do
  attempt ← gets (λ db. lookup id db.send_attempts)
  offer ← gets (λ db. elim attempt [ none ↦ none | some a ↦ lookup a.offer_id db.offers ])
  pure (MailOutcome.skipped_stale_owner (observed_status held attempt) (offer_status_of offer))
finish_owned now id next_id key result held (some (a, o)) =
    if result.success
    then finish_sent now id held a o
    else if ltb a.attempt_no mail_max_auto_attempts
    then finish_retry now id next_id key result a o
    else finish_dead now id result a o

-- The third phase, with the provider's result, the key and the id that a further attempt gets, and
-- the object that the worker holds.
unfoldable pub finish : ℕ → ℕ → ℕ → Text → MailSendResult → OfferSendAttempt → Handler MailOutcome
unfolding owned
finish now id next_id key result held = do
  mine ← gets (owned id held)
  finish_owned now id next_id key result held mine
