-- ===== src/Offers/Base.antt =====
-- What the offer services share: errors, the request, results, idempotency
-- (backend/app/services/offers.py).
use ai_recruitment.Common.{
  ℕ, ◌≡◌, refl, Bool, not, ◌&&◌, Option, none, some, List, ◌++◌, [], ◌∷◌, find, ◌==◌, if◌then◌else◌,
  Result, ok, err, Session, pure, raise, gets, modify, ◌>>=◌,
}
use ai_recruitment.Common.Text.{Text, is_empty, text_eq}
use ai_recruitment.Crypto.{Fernet, EncryptionError}
use ai_recruitment.Models.{
  Db, Offer, OfferStatus, OfferVersion, IdempotentAction, action_tag, IdempotencyKey, AuditAction,
  Change, Application, is_in_progress, is_pending_offer,
}

-- The exceptions, by message; the last two are not classes of the module.
pub data OfferError : Type 0 where
  -- `OfferNotFoundError`
  application_not_found offer_not_found version_not_found attempt_not_found : OfferError
  -- `OfferStateError`
  application_closed application_not_pending_offer not_editable not_draft not_voidable : OfferError
  not_sendable not_failed attempt_not_running started_at_missing expected_mismatch : OfferError
  not_stale not_sending recovery_conflict : OfferError
  -- `OfferValidationError`
  decision_required email_required name_required masked_email_required version_required : OfferError
  body_empty void_reason_required idempotency_key_required version_not_current : OfferError
  version_not_of_offer frozen_version_required cannot_decrypt : OfferError
  -- `OfferConflictError`
  lock_conflict idempotency_conflict active_offer_exists : OfferError
  -- `IntegrityError` of the database, and `EncryptionError`
  integrity_error : OfferError
  encryption_error : EncryptionError → OfferError

abbrev pub Handler : Type 0 → Type 0
Handler A = Session OfferError Db A

-- `request_payload` of each service call
pub data Payload : Type 0 where
  create_payload : ℕ → Option Text → Payload
  update_payload : ℕ → ℕ → Text → Option Text → Payload
  ready_payload : ℕ → ℕ → Option Text → Payload
  void_payload : ℕ → ℕ → Text → Option Text → Payload

-- What the services take from libraries: the cipher under the configured key, and SHA-256 over the
-- JSON form of a content (`_content_hash`) and of a payload (`_canonical_hash`).
pub record External : Type 0 where
  pub fernet : Option Fernet
  pub content_hash : Text → Text → Text → Text
  pub request_hash : Payload → Text

-- One request: who makes it, and the instant at which it runs.
pub record Request : Type 0 where
  pub actor : ℕ
  pub now : ℕ

-- `OfferResult`, less the columns that it copies from the offer unchanged.
pub record OfferResult : Type 0 where
  pub id : ℕ
  pub status : OfferStatus
  pub lock_version : ℕ
  pub version_id : Option ℕ
  pub version_no : Option ℕ
  pub content_hash : Option Text
  pub frozen : Option Bool

-- `_to_result`, given the current version with its key, if it was found
unfoldable pub to_result : ℕ → Offer → Option (ℕ × OfferVersion) → OfferResult
to_result id o none = record {
  id = id;
  status = o.status;
  lock_version = o.lock_version;
  version_id = o.current_version_id;
  version_no = none;
  content_hash = none;
  frozen = none;
}
to_result id o (some (vid, v)) = record {
  id = id;
  status = o.status;
  lock_version = o.lock_version;
  version_id = some vid;
  version_no = some v.version_no;
  content_hash = some v.content_hash;
  frozen = some v.frozen;
}

-- `if not key`
abbrev pub given : Option Text → Option Text
given none = none
given (some k) = if is_empty k then none else some k

unfoldable pub same_idempotency : ℕ → IdempotentAction → ℕ → Text → IdempotencyKey → Bool
same_idempotency actor action scope key r =
    r.actor_id == actor
    && action_tag r.action == action_tag action
    && r.scope_id == scope
    && text_eq r.key key

-- The comparison of the request hashes in `_consume_idempotency`.
check_hash : Text → Option IdempotencyKey → Handler (Option IdempotencyKey)
check_hash hash none = pure none
check_hash hash (some r) =
    if text_eq r.request_hash hash then pure (some r) else raise idempotency_conflict

consume_given : Text → ℕ → IdempotentAction → ℕ → Option Text → Handler (Option IdempotencyKey)
consume_given hash actor action scope none = pure none
consume_given hash actor action scope (some key) = do
  existing ← gets (λ db. find (same_idempotency actor action scope key) db.idempotency_keys)
  check_hash hash existing

-- `_consume_idempotency`
unfoldable pub consume_idempotency :
    External
    → Request
    → IdempotentAction
    → ℕ
    → Option Text
    → Payload
    → Handler (Option IdempotencyKey)
unfolding consume_given check_hash same_idempotency
consume_idempotency x c action scope key payload =
    consume_given (x.request_hash payload) c.actor action scope (given key)

store_given : Text → ℕ → IdempotentAction → ℕ → Option Text → Handler (Unit {0})
store_given hash actor action scope none = pure tt
store_given hash actor action scope (some key) = do
  existing ← gets (λ db. find (same_idempotency actor action scope key) db.idempotency_keys)
  elim existing [
    | some r ↦ raise integrity_error
    | none ↦ modify (λ db. record db {
      idempotency_keys =
          db.idempotency_keys
          ++ record {
            actor_id = actor;
            action = action;
            scope_id = scope;
            key = key;
            request_hash = hash;
          }
            ∷ [];
    })
  ]

-- `_store_idempotency`; the table has a unique constraint on the four columns of the key.
unfoldable pub store_idempotency :
    External → Request → IdempotentAction → ℕ → Option Text → Payload → Handler (Unit {0})
unfolding store_given same_idempotency
store_idempotency x c action scope key payload =
    store_given (x.request_hash payload) c.actor action scope (given key)

-- `record_audit` with resource type "offer"; `none` is the worker, which is no user.
unfoldable pub record_audit : AuditAction → Bool → Option ℕ → ℕ → List Change → Handler (Unit {0})
record_audit action success actor id changes = modify λ db. record db {
  audit_logs =
      db.audit_logs
      ++ record {
        action = action;
        success = success;
        actor_user_id = actor;
        resource_id = id;
        changes = changes;
      }
        ∷ [];
}

-- `_assert_application_offer_gate`
unfoldable pub application_offer_gate : Application → Option OfferError
application_offer_gate a =
    if not (is_in_progress a.status)
    then some application_closed
    else if not (is_pending_offer a.pipeline_status)
    then some application_not_pending_offer
    else none

-- Raises what a check has found.
abbrev pub raise_found : Option OfferError → Handler (Unit {0})
raise_found none = pure tt
raise_found (some e) = raise e

-- A cipher's answer, with its exception under another name where the service catches it.
abbrev pub lift_cipher :
    {A : Type 0} → (EncryptionError → OfferError) → Result EncryptionError A → Handler A
lift_cipher wrap (ok a) = pure a
lift_cipher wrap (err e) = raise (wrap e)

-- The database behind a call: what it commits, or what was there before if it raises.
abbrev pub committed : {A : Type 0} → Db → Result OfferError (A × Db) → Db
committed db (ok r) = r.1
committed db (err e) = db

-- What holds behind a call, if it holds of every commit.
pub committed-ok :
    {A : Type 0} (P : Db → Type 0) (m : Result OfferError (A × Db)) (db : Db)
    → ((r : A × Db) → m ≡ ok r → P r.1)
    → P db
    → P (committed db m)
committed-ok P (ok r) db step h = step r refl
committed-ok P (err e) db step h = h

-- What holds behind a sequence of two steps, if it holds however the sequence ends.
pub committed-bind :
    {A B : Type 0} (P : Db → Type 0) (m : Handler A) (f : A → Handler B) (db : Db)
    → ((a : A) (db' : Db) → m db ≡ ok (a, db') → P (committed db (f a db')))
    → P db
    → P (committed db ((m >>= f) db))
committed-bind {A} P m f db step h = split (m db) refl
  where
    split :
        (r : Result OfferError (A × Db))
        → m db ≡ r
        → P (committed db (elim r [ ok p ↦ f p.0 p.1 | err e ↦ err e ]))
    split (ok p) e = step p.0 p.1 e
    split (err x) e = h
