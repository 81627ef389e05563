-- ===== src/Offers/Versions/Steps.antt =====
-- Each call of backend/app/services/offers.py makes one write to the versions at most.
use ai_recruitment.Common.{
  ℕ, ◌≡◌, Bool, true, false, ◌||◌, Option, none, some, ok, err, Result-cases, inl, inr, arith,
}
use ai_recruitment.Common.Text.{Text}
use ai_recruitment.Common.Table.{lookup}
use ai_recruitment.Models.{
  Db, Offer, OfferVersion, OfferSendAttempt, AuditAction, IdempotentAction, IdempotencyKey,
}
use ai_recruitment.Offers.Base.{
  External, Request, Payload, Handler, OfferResult, consume_idempotency,
}
use ai_recruitment.Offers.Drafts.{
  creatable, write_created, create_after, on_conflict, current_result,
}
use ai_recruitment.Offers.Drafts.Quiet.{consume_idempotency-ok}
use ai_recruitment.Offers.Drafts.Effects.{creatable-ok}
use ai_recruitment.Offers.Edits.{
  editable, update_after, readyable, ready_after, voidable, void_after,
}
use ai_recruitment.Offers.Edits.Effects.{
  editable-ok, readyable-ok, write_ready-ok, voidable-ok, write_void-ok,
}
use ai_recruitment.Offers.Sending.{
  OfferSendResult, sendable, resendable, write_sending, confirm_after, retry_after,
}
use ai_recruitment.Offers.Versions.{
  stay, add, fix, Writes, write_edit-versions, write_created-versions, sendable-version,
  resendable-version, write_sending-versions, replay-versions,
}

same-Writes : (db db' : Db) → db'.offer_versions ≡ db.offer_versions → Writes db db'
same-Writes db db' e = rw e stay

-- Behind the look at the idempotency record.
pub after_consume-Writes :
    (x : External) (c : Request) (action : IdempotentAction) (scope : ℕ) (key : Option Text)
    (payload : Payload) (f : Option IdempotencyKey → Handler OfferResult) (db : Db)
    (r : OfferResult × Db)
    → ((reused : Option IdempotencyKey) → f reused db ≡ ok r → Writes db r.1)
    → elim (consume_idempotency x c action scope key payload db) [
      | ok p ↦ f p.0 p.1
      | err e ↦ err e
    ]
      ≡ ok r
    → Writes db r.1
after_consume-Writes x c action scope key payload f db r step h =
    elim (Result-cases (consume_idempotency x c action scope key payload db)) [
      | inl ((reused, db'), w) ↦
          let same = consume_idempotency-ok x c action scope key payload db (reused, db') w in
          step reused (ground (arith, w, same, h))
      | inr (e, w) ↦ ground (arith, w, h)
    ]

current_result-Writes :
    (offer_id : ℕ) (db : Db) (r : OfferResult × Db)
    → current_result offer_id db ≡ ok r
    → Writes db r.1
unfolding current_result
current_result-Writes offer_id db r h = same-Writes db r.1 (ground arith)

pub update_after-Writes :
    (x : External) (c : Request) (offer_id version_id : ℕ) (s h t : Text) (lock_version : ℕ)
    (key : Option Text) (reused : Option IdempotencyKey) (db : Db) (r : OfferResult × Db)
    → update_after x c offer_id version_id s h t lock_version key reused db ≡ ok r
    → Writes db r.1
unfolding update_after
update_after-Writes x c offer_id version_id s h t lock_version key (some k) db r e =
    current_result-Writes offer_id db r e
update_after-Writes x c offer_id version_id s h t lock_version key none db r e =
    elim (Result-cases (editable offer_id lock_version db)) [
      | inl ((o, db'), w) ↦
          let same = (editable-ok offer_id lock_version db db' o w).0 in
          let (v, n, q) =
            write_edit-versions x c offer_id version_id s h t lock_version key o db r
              (ground (arith, w, same, e)) in
          rw q (add version_id v n)
      | inr (y, w) ↦ ground (arith, w, e)
    ]

pub ready_after-Writes :
    (x : External) (c : Request) (offer_id lock_version : ℕ) (key : Option Text)
    (reused : Option IdempotencyKey) (db : Db) (r : OfferResult × Db)
    → ready_after x c offer_id lock_version key reused db ≡ ok r
    → Writes db r.1
unfolding ready_after
ready_after-Writes x c offer_id lock_version key (some k) db r e =
    current_result-Writes offer_id db r e
ready_after-Writes x c offer_id lock_version key none db r e =
    elim (Result-cases (readyable x offer_id lock_version db)) [
      | inl ((p, db'), w) ↦
          let f = readyable-ok x offer_id lock_version db db' p w in
          let g =
            write_ready-ok x c offer_id lock_version key p db r.1 r.0 (ground (arith, w, f.0, e)) in
          rw (g.2) (fix p.1 p.2 true f.5 (ground arith))
      | inr (y, w) ↦ ground (arith, w, e)
    ]

pub void_after-Writes :
    (x : External) (c : Request) (offer_id : ℕ) (reason : Text) (lock_version : ℕ)
    (key : Option Text) (reused : Option IdempotencyKey) (db : Db) (r : OfferResult × Db)
    → void_after x c offer_id reason lock_version key reused db ≡ ok r
    → Writes db r.1
unfolding void_after
void_after-Writes x c offer_id reason lock_version key (some k) db r e =
    current_result-Writes offer_id db r e
void_after-Writes x c offer_id reason lock_version key none db r e =
    elim (Result-cases (voidable offer_id lock_version db)) [
      | inl ((o, db'), w) ↦
          let f = voidable-ok offer_id lock_version db db' o w in
          let g =
            write_void-ok x c offer_id reason lock_version key o db r.1 r.0
              (ground (arith, w, f.0, e)) in
          same-Writes db r.1 g.2
      | inr (y, w) ↦ ground (arith, w, e)
    ]

write_sending-Writes :
    (c : Request) (action : AuditAction) (b : Bool) (offer_id attempt_id : ℕ) (key : Text)
    (p : Offer × ℕ × OfferVersion) (db : Db) (r : OfferSendResult × Db)
    → lookup p.1 db.offer_versions ≡ some (p.2)
    → write_sending c action b offer_id attempt_id key p db ≡ ok r
    → Writes db r.1
write_sending-Writes c action b offer_id attempt_id key p db r f e =
    rw (write_sending-versions c action b offer_id attempt_id key p db r e)
      (fix p.1 p.2 ((p.2).frozen || b) f (ground arith))

pub confirm_after-Writes :
    (c : Request) (offer_id vid lock attempt_id : ℕ) (key : Text)
    (existing : Option (ℕ × OfferSendAttempt)) (db : Db) (r : OfferSendResult × Db)
    → confirm_after c offer_id vid lock attempt_id key existing db ≡ ok r
    → Writes db r.1
unfolding confirm_after
confirm_after-Writes c offer_id vid lock attempt_id key (some p) db r e =
    same-Writes db r.1 (replay-versions offer_id p db r e)
confirm_after-Writes c offer_id vid lock attempt_id key none db r e =
    elim (Result-cases (sendable offer_id vid lock db)) [
      | inl (p, w) ↦
          let f = sendable-version offer_id vid lock db p w in
          write_sending-Writes c AuditAction.offer_send_confirmed true offer_id attempt_id key p.0
            db r f.1 (ground (arith, w, f.0, e))
      | inr (y, w) ↦ ground (arith, w, e)
    ]

pub retry_after-Writes :
    (c : Request) (offer_id lock attempt_id : ℕ) (key : Text)
    (existing : Option (ℕ × OfferSendAttempt)) (db : Db) (r : OfferSendResult × Db)
    → retry_after c offer_id lock attempt_id key existing db ≡ ok r
    → Writes db r.1
unfolding retry_after
retry_after-Writes c offer_id lock attempt_id key (some p) db r e =
    same-Writes db r.1 (replay-versions offer_id p db r e)
retry_after-Writes c offer_id lock attempt_id key none db r e =
    elim (Result-cases (resendable offer_id lock db)) [
      | inl (p, w) ↦
          let f = resendable-version offer_id lock db p w in
          write_sending-Writes c AuditAction.offer_retry_requested false offer_id attempt_id key p.0
            db r f.1 (ground (arith, w, f.0, e))
      | inr (y, w) ↦ ground (arith, w, e)
    ]

created_after-Writes :
    (x : External) (c : Request) (application_id offer_id version_id : ℕ) (key : Option Text)
    (p : ℕ × Text × Text) (db : Db) (r : OfferResult × Db)
    → on_conflict (write_created x c application_id offer_id version_id key p) db ≡ ok r
    → Writes db r.1
unfolding on_conflict
created_after-Writes x c application_id offer_id version_id key p db r e =
    elim (Result-cases (write_created x c application_id offer_id version_id key p db)) [
      | inl (q, w) ↦
          let (v, n, g) =
            write_created-versions x c application_id offer_id version_id key p db r
              (ground (arith, w, e)) in
          rw g (add version_id v n)
      | inr (y, w) ↦ ground (arith, w, e)
    ]

pub create_after-Writes :
    (x : External) (c : Request) (application_id offer_id version_id : ℕ) (key : Option Text)
    (reused : Option IdempotencyKey) (db : Db) (r : OfferResult × Db)
    → create_after x c application_id offer_id version_id key reused db ≡ ok r
    → Writes db r.1
unfolding create_after
create_after-Writes x c application_id offer_id version_id key (some k) db r e =
    same-Writes db r.1 (ground arith)
create_after-Writes x c application_id offer_id version_id key none db r e =
    elim (Result-cases (creatable application_id db)) [
      | inl ((p, db'), w) ↦
          let same = (creatable-ok application_id db db' p w).0 in
          created_after-Writes x c application_id offer_id version_id key p db r
            (ground (arith, w, same, e))
      | inr (y, w) ↦ ground (arith, w, e)
    ]
