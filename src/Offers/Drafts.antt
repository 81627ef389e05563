-- ===== src/Offers/Drafts.antt =====
-- Creating an offer (backend/app/services/offers.py), and the steps that other calls share. The
-- checks of a call come before its first write, and are a function of their own.
pub mod Quiet
pub mod Effects
pub mod Steps
use ai_recruitment.Common.{
  ℕ, suc, ◌+◌, Bool, true, false, not, ◌&&◌, ◌||◌, Option, none, some, List, [], ◌∷◌, ◌++◌, ◌==◌,
  if◌then◌else◌, option_eq, is_some, Result, ok, err, Session, pure, raise, gets, or_raise,
  raise_if, modify, ◌>>=◌, ◌>>◌,
}
use ai_recruitment.Common.Text.{Text, is_empty, strip}
use ai_recruitment.Common.Table.{lookup}
use ai_recruitment.Crypto.{encrypt_required, decrypt_required}
use ai_recruitment.Models.{
  Db, Offer, OfferStatus, OfferVersion, Candidate, Application, IdempotencyKey, IdempotentAction,
  AuditAction, Change, is_draft, is_ready, is_failed, offer_template_code, offer_template_version,
}
use ai_recruitment.Offers.Base.{
  OfferError, Handler, Payload, External, Request, OfferResult, to_result, consume_idempotency,
  store_idempotency, record_audit, application_offer_gate, raise_found, lift_cipher,
}
use ai_recruitment.Offers.Masking.{mask_email}
use ai_recruitment.Offers.Store.{
  get_current_version, find_active_offer, latest_recommend_hire, next_version_no, add_offer,
  add_offer_version, save_offer, save_version,
}

-- `get_offer_by_id_for_update`, then the comparison of the lock version
unfoldable pub locked_offer : ℕ → ℕ → Handler Offer
locked_offer offer_id lock_version = do
  offer ← or_raise (← gets (λ db. lookup offer_id db.offers)) OfferError.offer_not_found
  raise_if (not (offer.lock_version == lock_version)) OfferError.lock_conflict
  pure offer

-- `get_application_by_id_for_update`, then `_assert_application_offer_gate`
unfoldable pub gated_application : ℕ → Handler Application
unfolding application_offer_gate
gated_application application_id = do
  application ←
      or_raise (← gets (λ db. lookup application_id db.applications))
        OfferError.application_not_found
  raise_found (application_offer_gate application)
  pure application

-- The offer as it stands, with its current version: what a repeated request gets.
unfoldable pub current_result : ℕ → Handler OfferResult
unfolding to_result get_current_version
current_result offer_id = do
  offer ← or_raise (← gets (λ db. lookup offer_id db.offers)) OfferError.offer_not_found
  version ← gets (get_current_version offer.current_version_id)
  pure (to_result offer_id offer version)

-- `OfferVersion(...)` over the encrypted content
unfoldable pub new_version : External → Request → ℕ → ℕ → Text → Text → Text → Handler OfferVersion
unfolding encrypt_required
new_version x c offer_id version_no subject body_html body_text = do
  subject_encrypted ← lift_cipher OfferError.encryption_error (encrypt_required x.fernet subject)
  body_html_encrypted ←
      lift_cipher OfferError.encryption_error (encrypt_required x.fernet body_html)
  body_text_encrypted ←
      lift_cipher OfferError.encryption_error (encrypt_required x.fernet body_text)
  pure (record {
    offer_id = offer_id;
    version_no = version_no;
    subject_encrypted = subject_encrypted;
    body_html_encrypted = body_html_encrypted;
    body_text_encrypted = body_text_encrypted;
    content_hash = x.content_hash subject body_html body_text;
    template_code = offer_template_code;
    template_version = offer_template_version;
    frozen = false;
    created_by = c.actor;
    created_at = c.now;
  })

candidate_email : Option Candidate → Option Text
candidate_email none = none
candidate_email (some p) = p.email

candidate_name : Option Candidate → Text
candidate_name none = []
candidate_name (some p) = p.name

-- The checks of `create_offer`: the decision behind the offer, the masked address and the name.
unfoldable pub creatable : ℕ → Handler (ℕ × Text × Text)
unfolding gated_application candidate_email candidate_name
creatable application_id = do
  application ← gated_application application_id
  latest ← or_raise (← gets (latest_recommend_hire application_id)) OfferError.decision_required
  raise_if (← gets (λ db. is_some (find_active_offer application_id db)))
      OfferError.active_offer_exists
  masked ← or_raise (mask_email (candidate_email application.candidate)) OfferError.email_required
  raise_if (is_empty (candidate_name application.candidate)) OfferError.name_required
  pure (latest.0, masked, candidate_name application.candidate)

-- The row that `create_offer` adds.
unfoldable pub new_offer : Request → ℕ → ℕ → Text → Text → Offer
new_offer c application_id decision_id masked name = record {
  application_id = application_id;
  hiring_decision_id = decision_id;
  status = OfferStatus.draft;
  current_version_id = none;
  recipient_email_masked = some masked;
  recipient_name = name;
  lock_version = 1;
  created_by = c.actor;
  updated_by = c.actor;
  created_at = c.now;
  updated_at = c.now;
  voided_at = none;
  void_reason_code = none;
}

-- The writes of `create_offer`, under its `try`.
unfoldable pub write_created :
    External → Request → ℕ → ℕ → ℕ → Option Text → ℕ × Text × Text → Handler OfferResult
unfolding new_offer add_offer save_offer record_audit to_result
write_created x c application_id offer_id version_id key (decision_id, masked, name) = do
  let offer = new_offer c application_id decision_id masked name
  add_offer offer_id offer
  version ← new_version x c offer_id 1 [] [] []
  add_offer_version version_id version
  let offer' : Offer = record offer { current_version_id = some version_id }
  save_offer offer_id offer'
  store_idempotency x c IdempotentAction.offer_create application_id key
      (Payload.create_payload application_id key)
  record_audit AuditAction.offer_created true (some c.actor) offer_id (
      Change.application_id application_id
      ∷ Change.offer_id offer_id
      ∷ Change.hiring_decision_id decision_id
      ∷ Change.lock_version 1
      ∷ Change.version_no 1
      ∷ Change.offer_status OfferStatus.draft
      ∷ Change.recipient_email_masked (some masked)
      ∷ Change.idempotency_key key
      ∷ [])
  pure (to_result offer_id offer' (some (version_id, version)))

-- `except IntegrityError`
unfoldable pub conflict_of : OfferError → OfferError
conflict_of OfferError.integrity_error = OfferError.active_offer_exists
conflict_of e = e

unfoldable pub on_conflict : Handler OfferResult → Handler OfferResult
unfolding conflict_of
on_conflict m db = elim (m db) [ ok r ↦ ok r | err e ↦ err (conflict_of e) ]

unfoldable pub create_after :
    External → Request → ℕ → ℕ → ℕ → Option Text → Option IdempotencyKey → Handler OfferResult
unfolding to_result get_current_version
create_after x c application_id offer_id version_id key (some reused) = do
  active ← or_raise (← gets (find_active_offer application_id)) OfferError.idempotency_conflict
  version ← gets (get_current_version active.1.current_version_id)
  pure (to_result active.0 active.1 version)
create_after x c application_id offer_id version_id key none = do
  plan ← creatable application_id
  on_conflict (write_created x c application_id offer_id version_id key plan)

-- `create_offer`, with the two keys that `uuid4` makes
unfoldable pub create_offer : External → Request → ℕ → ℕ → ℕ → Option Text → Handler OfferResult
create_offer x c application_id offer_id version_id key = do
  reused ←
      consume_idempotency x c IdempotentAction.offer_create application_id key
        (Payload.create_payload application_id key)
  create_after x c application_id offer_id version_id key reused
