-- ===== src/Offers/Versions.antt =====
-- The content of an offer version never changes: the calls of backend/app/services/offers.py add
-- versions and freeze them, and backend/app/workers/mail_tasks.py only reads them.
pub mod Steps
use ai_recruitment.Common.{
  ℕ, ◌≡◌, ◌≤◌, ◌⊎◌, refl, Bool, true, false, ◌||◌, bit, Option, none, some, [], Result, ok, err,
  Option-cases, Result-cases, inl, inr, arith,
}
use ai_recruitment.Common.Text.{Text, is_empty, strip}
use ai_recruitment.Common.Table.{Table, lookup, put, lookup-put}
use ai_recruitment.Models.{
  Db, Offer, OfferVersion, OfferSendAttempt, AuditAction, IdempotentAction, IdempotencyKey,
}
use ai_recruitment.Offers.Base.{
  External, Request, Payload, Handler, OfferResult, OfferError, committed, committed-ok,
  committed-bind, consume_idempotency,
}
use ai_recruitment.Offers.Store.{add_offer_version, find_attempt_by_key, next_version_no}
use ai_recruitment.Offers.Drafts.{
  creatable, write_created, create_after, create_offer, on_conflict, new_version, new_offer,
  current_result,
}
use ai_recruitment.Offers.Drafts.Quiet.{
  new_version-ok, store_idempotency-ok, consume_idempotency-ok,
}
use ai_recruitment.Offers.Drafts.Effects.{creatable-ok}
use ai_recruitment.Offers.Edits.{
  editable, write_edit, update_after, update_offer_draft, readyable, write_ready, ready_after,
  mark_offer_ready, voidable, write_void, void_after, void_offer,
}
use ai_recruitment.Offers.Edits.Effects.{
  editable-ok, readyable-ok, write_ready-ok, voidable-ok, write_void-ok,
}
use ai_recruitment.Offers.Sending.{
  OfferSendResult, sendable, resendable, write_sending, replay, confirm_after, confirm_offer_send,
  retry_after, retry_offer_send, mark_stale_failed_offer_send_attempt,
}
use ai_recruitment.Offers.Worker.{MailOutcome, MailSendResult, pick_up, open_claim, finish}

-- What a write does to the versions: nothing, a new one, or a freeze.
pub data VersionMove (t : Table OfferVersion) : Table OfferVersion → Type 0 where
  stay : VersionMove t t
  add : (id : ℕ) (v : OfferVersion) → lookup id t ≡ none → VersionMove t (put id v t)
  fix :
      (id : ℕ) (v : OfferVersion) (f : Bool)
      → lookup id t ≡ some v
      → bit v.frozen ≤ bit f
      → VersionMove t (put id (record v { frozen = f }) t)

-- `db'` comes from `db` by such a write.
abbrev pub Writes : Db → Db → Type 0
Writes db db' = VersionMove db.offer_versions db'.offer_versions

add_offer_version-versions :
    (id : ℕ) (v : OfferVersion) (db : Db) (r : Unit {0} × Db)
    → add_offer_version id v db ≡ ok r
    → (lookup id db.offer_versions ≡ none) × (r.1.offer_versions ≡ put id v db.offer_versions)
unfolding add_offer_version
add_offer_version-versions id v db r h = ground arith

pub write_edit-versions :
    (x : External) (c : Request) (offer_id version_id : ℕ) (s h t : Text) (lock_version : ℕ)
    (key : Option Text) (o : Offer) (db : Db) (r : OfferResult × Db)
    → write_edit x c offer_id version_id s h t lock_version key o db ≡ ok r
    → (v : OfferVersion) × (lookup version_id db.offer_versions ≡ none)
      × (r.1.offer_versions ≡ put version_id v db.offer_versions)
unfolding write_edit
write_edit-versions x c offer_id version_id s h t lock_version key o db r e =
    elim (Result-cases (new_version x c offer_id (next_version_no offer_id db) s h t db)) [
      | inl (q, w) ↦ (
        q.0,
        grind (arith, new_version-ok, add_offer_version-versions, store_idempotency-ok),
        grind (arith, new_version-ok, add_offer_version-versions, store_idempotency-ok),
      )
      | inr (y, w) ↦ ground (arith, w, e)
    ]

pub write_created-versions :
    (x : External) (c : Request) (application_id offer_id version_id : ℕ) (key : Option Text)
    (p : ℕ × Text × Text) (db : Db) (r : OfferResult × Db)
    → write_created x c application_id offer_id version_id key p db ≡ ok r
    → (v : OfferVersion) × (lookup version_id db.offer_versions ≡ none)
      × (r.1.offer_versions ≡ put version_id v db.offer_versions)
unfolding write_created
write_created-versions x c application_id offer_id version_id key p db r e =
    let db' = record db {
      offers = put offer_id (new_offer c application_id p.0 p.1 p.2) db.offers;
    } in
    elim (Result-cases (new_version x c offer_id 1 [] [] [] db')) [
      | inl (q, w) ↦ (
        q.0,
        grind (arith, new_version-ok, add_offer_version-versions, store_idempotency-ok),
        grind (arith, new_version-ok, add_offer_version-versions, store_idempotency-ok),
      )
      | inr (y, w) ↦ grind (arith, w, e)
    ]

pub sendable-version :
    (offer_id version_id lock_version : ℕ) (db : Db) (p : (Offer × ℕ × OfferVersion) × Db)
    → sendable offer_id version_id lock_version db ≡ ok p
    → (p.1 ≡ db) × (lookup (p.0.1) db.offer_versions ≡ some (p.0.2))
unfolding sendable
sendable-version offer_id version_id lock_version db p h = ground arith

pub resendable-version :
    (offer_id lock_version : ℕ) (db : Db) (p : (Offer × ℕ × OfferVersion) × Db)
    → resendable offer_id lock_version db ≡ ok p
    → (p.1 ≡ db) × (lookup (p.0.1) db.offer_versions ≡ some (p.0.2))
unfolding resendable
resendable-version offer_id lock_version db p h = ground arith

pub write_sending-versions :
    (c : Request) (action : AuditAction) (freeze : Bool) (offer_id attempt_id : ℕ) (key : Text)
    (p : Offer × ℕ × OfferVersion) (db : Db) (r : OfferSendResult × Db)
    → write_sending c action freeze offer_id attempt_id key p db ≡ ok r
    → r.1.offer_versions
      ≡ put p.1 (record (p.2) { frozen = (p.2).frozen || freeze }) db.offer_versions
unfolding write_sending
write_sending-versions c action freeze offer_id attempt_id key p db r h = ground arith

pub replay-versions :
    (offer_id : ℕ) (p : ℕ × OfferSendAttempt) (db : Db) (r : OfferSendResult × Db)
    → replay offer_id p db ≡ ok r
    → r.1.offer_versions ≡ db.offer_versions
unfolding replay
replay-versions offer_id p db r h = ground arith

pub mark_stale-versions :
    (c : Request) (offer_id attempt_id expected : ℕ) (db : Db) (r : Unit {0} × Db)
    → mark_stale_failed_offer_send_attempt c offer_id attempt_id expected db ≡ ok r
    → r.1.offer_versions ≡ db.offer_versions
unfolding mark_stale_failed_offer_send_attempt
mark_stale-versions c offer_id attempt_id expected db r h = ground arith
