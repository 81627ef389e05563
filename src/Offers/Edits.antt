-- ===== src/Offers/Edits.antt =====
-- Editing, readying and voiding an existing offer (backend/app/services/offers.py).

pub mod Effects
pub mod Steps
use ai_recruitment.Common.{
  ℕ, ◌+◌, Bool, true, false, not, ◌&&◌, ◌||◌, Option, none, some, List, [], ◌∷◌, if◌then◌else◌,
  is_some, Result, ok, err, Session, pure, raise, gets, or_raise, raise_if, modify, ◌>>=◌, ◌>>◌,
}
use ai_recruitment.Common.Text.{Text, is_empty, strip}
use ai_recruitment.Common.Table.{lookup}
use ai_recruitment.Crypto.{decrypt_required}
use ai_recruitment.Models.{
  Db, Offer, OfferStatus, OfferVersion, IdempotencyKey, IdempotentAction, AuditAction, Change,
  is_draft, is_ready, is_failed,
}
use ai_recruitment.Offers.Base.{
  OfferError, Handler, Payload, External, Request, OfferResult, to_result, consume_idempotency,
  store_idempotency, record_audit, lift_cipher,
}
use ai_recruitment.Offers.Store.{
  get_current_version, next_version_no, add_offer_version, save_offer, save_version,
}
use ai_recruitment.Offers.Drafts.{locked_offer, gated_application, current_result, new_version}

-- `get_offer_version` at a nullable key, where a missing row is an error and a missing key is not
unfoldable pub version_if_any : Option ℕ → Handler (Unit {0})
unfolding get_current_version
version_if_any none = pure tt
version_if_any (some vid) = do
  or_raise (← gets (get_current_version (some vid))) OfferError.version_not_found
  pure tt

-- The checks of `update_offer_draft`.
unfoldable pub editable : ℕ → ℕ → Handler Offer
unfolding locked_offer gated_application version_if_any
editable offer_id lock_version = do
  offer ← locked_offer offer_id lock_version
  raise_if (not (is_draft offer.status || is_ready offer.status)) OfferError.not_editable
  gated_application offer.application_id
  version_if_any offer.current_version_id
  pure offer

-- The offer behind a new version: a ready offer falls back to a draft.
unfoldable pub edited_offer : Request → ℕ → Offer → Offer
edited_offer c version_id offer = record offer {
  current_version_id = some version_id;
  status = if is_ready offer.status then OfferStatus.draft else offer.status;
  lock_version = offer.lock_version + 1;
  updated_by = c.actor;
  updated_at = c.now;
}

unfoldable pub write_edit :
    External → Request → ℕ → ℕ → Text → Text → Text → ℕ → Option Text → Offer → Handler OfferResult
unfolding edited_offer next_version_no save_offer record_audit to_result
write_edit x c offer_id version_id subject body_html body_text lock_version key offer = do
  version_no ← gets (next_version_no offer_id)
  version ← new_version x c offer_id version_no subject body_html body_text
  add_offer_version version_id version
  let offer' = edited_offer c version_id offer
  save_offer offer_id offer'
  store_idempotency x c IdempotentAction.offer_update offer_id key (
      Payload.update_payload offer_id lock_version (x.content_hash subject body_html body_text) key)
  record_audit AuditAction.offer_updated true (some c.actor) offer_id (
      Change.offer_id offer_id
      ∷ Change.version_no version_no
      ∷ Change.version_id version_id
      ∷ Change.content_hash version.content_hash
      ∷ Change.lock_version offer'.lock_version
      ∷ Change.offer_status offer'.status
      ∷ Change.recipient_email_masked offer.recipient_email_masked
      ∷ Change.idempotency_key key
      ∷ [])
  pure (to_result offer_id offer' (some (version_id, version)))

unfoldable pub update_after :
    External
    → Request
    → ℕ
    → ℕ
    → Text
    → Text
    → Text
    → ℕ
    → Option Text
    → Option IdempotencyKey
    → Handler OfferResult
update_after x c offer_id version_id subject body_html body_text lock_version key (some reused) =
    current_result offer_id
update_after x c offer_id version_id subject body_html body_text lock_version key none = do
  offer ← editable offer_id lock_version
  write_edit x c offer_id version_id subject body_html body_text lock_version key offer

-- `update_offer_draft`
unfoldable pub update_offer_draft :
    External → Request → ℕ → ℕ → Text → Text → Text → ℕ → Option Text → Handler OfferResult
update_offer_draft x c offer_id version_id subject body_html body_text lock_version key = do
  reused ← consume_idempotency x c IdempotentAction.offer_update offer_id key (
      Payload.update_payload offer_id lock_version (x.content_hash subject body_html body_text) key)
  update_after x c offer_id version_id subject body_html body_text lock_version key reused

unfoldable pub has_address : Option Text → Bool
has_address none = false
has_address (some s) = not (is_empty s)

-- Some part of the decrypted content is not blank.
unfoldable pub has_body : Text → Text → Text → Bool
unfolding strip
has_body subject body_html body_text =
    not (is_empty (strip subject))
    || not (is_empty (strip body_html))
    || not (is_empty (strip body_text))

-- The content of a version, decrypted.
unfoldable pub read_body : External → OfferVersion → Handler (Text × Text × Text)
unfolding decrypt_required
read_body x v = do
  subject ←
      lift_cipher (λ _. OfferError.cannot_decrypt) (decrypt_required x.fernet v.subject_encrypted)
  html ←
      lift_cipher (λ _. OfferError.cannot_decrypt) (decrypt_required x.fernet v.body_html_encrypted)
  text ←
      lift_cipher (λ _. OfferError.cannot_decrypt) (decrypt_required x.fernet v.body_text_encrypted)
  pure (subject, html, text)

-- The checks of `mark_offer_ready`; the result is the offer and its current version with its key.
unfoldable pub readyable : External → ℕ → ℕ → Handler (Offer × ℕ × OfferVersion)
unfolding locked_offer gated_application has_address has_body get_current_version
readyable x offer_id lock_version = do
  offer ← locked_offer offer_id lock_version
  raise_if (not (is_draft offer.status)) OfferError.not_draft
  raise_if (not (has_address offer.recipient_email_masked)) OfferError.masked_email_required
  raise_if (not (is_some offer.current_version_id)) OfferError.version_required
  gated_application offer.application_id
  found ←
      or_raise (← gets (get_current_version offer.current_version_id)) OfferError.version_not_found
  body ← read_body x found.1
  raise_if (not (has_body body.0 body.1 body.2)) OfferError.body_empty
  pure (offer, found.0, found.1)

unfoldable pub ready_offer : Request → Offer → Offer
ready_offer c offer = record offer {
  status = OfferStatus.ready;
  lock_version = offer.lock_version + 1;
  updated_by = c.actor;
  updated_at = c.now;
}

unfoldable pub write_ready :
    External → Request → ℕ → ℕ → Option Text → Offer × ℕ × OfferVersion → Handler OfferResult
unfolding ready_offer save_version save_offer record_audit to_result
write_ready x c offer_id lock_version key (offer, version_id, version) = do
  let version' : OfferVersion = record version { frozen = true }
  save_version version_id version'
  let offer' = ready_offer c offer
  save_offer offer_id offer'
  store_idempotency x c IdempotentAction.offer_ready offer_id key
      (Payload.ready_payload offer_id lock_version key)
  record_audit AuditAction.offer_marked_ready true (some c.actor) offer_id (
      Change.offer_id offer_id
      ∷ Change.version_id version_id
      ∷ Change.version_no version.version_no
      ∷ Change.content_hash version.content_hash
      ∷ Change.lock_version offer'.lock_version
      ∷ Change.from_status offer.status
      ∷ Change.to_status offer'.status
      ∷ Change.offer_status offer'.status
      ∷ Change.recipient_email_masked offer.recipient_email_masked
      ∷ Change.idempotency_key key
      ∷ [])
  pure (to_result offer_id offer' (some (version_id, version')))

unfoldable pub ready_after :
    External → Request → ℕ → ℕ → Option Text → Option IdempotencyKey → Handler OfferResult
ready_after x c offer_id lock_version key (some reused) = current_result offer_id
ready_after x c offer_id lock_version key none = do
  plan ← readyable x offer_id lock_version
  write_ready x c offer_id lock_version key plan

-- `mark_offer_ready`
unfoldable pub mark_offer_ready : External → Request → ℕ → ℕ → Option Text → Handler OfferResult
mark_offer_ready x c offer_id lock_version key = do
  reused ←
      consume_idempotency x c IdempotentAction.offer_ready offer_id key
        (Payload.ready_payload offer_id lock_version key)
  ready_after x c offer_id lock_version key reused

-- The checks of `void_offer`.
unfoldable pub voidable : ℕ → ℕ → Handler Offer
unfolding locked_offer
voidable offer_id lock_version = do
  offer ← locked_offer offer_id lock_version
  raise_if (not (is_draft offer.status || is_ready offer.status || is_failed offer.status))
      OfferError.not_voidable
  pure offer

unfoldable pub voided_offer : Request → Text → Offer → Offer
unfolding strip
voided_offer c reason offer = record offer {
  status = OfferStatus.voided;
  void_reason_code = some (strip reason);
  voided_at = some c.now;
  lock_version = offer.lock_version + 1;
  updated_by = c.actor;
  updated_at = c.now;
}

unfoldable pub write_void :
    External → Request → ℕ → Text → ℕ → Option Text → Offer → Handler OfferResult
unfolding voided_offer get_current_version save_offer record_audit to_result
write_void x c offer_id reason lock_version key offer = do
  let offer' = voided_offer c reason offer
  save_offer offer_id offer'
  version ← gets (get_current_version offer.current_version_id)
  store_idempotency x c IdempotentAction.offer_void offer_id key
      (Payload.void_payload offer_id lock_version reason key)
  record_audit AuditAction.offer_voided true (some c.actor) offer_id (
      Change.offer_id offer_id
      ∷ Change.lock_version offer'.lock_version
      ∷ Change.from_status offer.status
      ∷ Change.to_status offer'.status
      ∷ Change.offer_status offer'.status
      ∷ Change.void_reason_code offer'.void_reason_code
      ∷ Change.recipient_email_masked offer.recipient_email_masked
      ∷ Change.idempotency_key key
      ∷ [])
  pure (to_result offer_id offer' version)

unfoldable pub void_after :
    External → Request → ℕ → Text → ℕ → Option Text → Option IdempotencyKey → Handler OfferResult
void_after x c offer_id reason lock_version key (some reused) = current_result offer_id
void_after x c offer_id reason lock_version key none = do
  offer ← voidable offer_id lock_version
  write_void x c offer_id reason lock_version key offer

-- `void_offer`
unfoldable pub void_offer : External → Request → ℕ → Text → ℕ → Option Text → Handler OfferResult
unfolding strip
void_offer x c offer_id reason lock_version key = do
  raise_if (is_empty (strip reason)) OfferError.void_reason_required
  reused ←
      consume_idempotency x c IdempotentAction.offer_void offer_id key
        (Payload.void_payload offer_id lock_version reason key)
  void_after x c offer_id reason lock_version key reused
