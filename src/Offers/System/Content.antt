-- ===== src/Offers/System/Content.antt =====
-- The content of an offer version is the same in every run of the system: what is sent is what was
-- written, and what was approved stays approved.
use ai_recruitment.Common.{
  refl, err, List, Result, ℕ, ◌≡◌, ◌≤◌, Bool, bit, Option, some, ok, Option-cases, Bool-cases, inl,
  inr, arith, ◌++◌, ◌==◌,
}
use ai_recruitment.Common.Text.{Text, is_empty, strip}
use ai_recruitment.Common.Table.{Table, lookup, put, lookup-put}
use ai_recruitment.Models.{Db, OfferVersion, OfferSendAttempt, AttemptStatus, IdempotentAction}
use ai_recruitment.Offers.Base.{OfferError, External, Request, Payload, OfferResult, committed-ok}
use ai_recruitment.Offers.Store.{find_attempt_by_key}
use ai_recruitment.Offers.Drafts.{create_after, create_offer}
use ai_recruitment.Offers.Edits.{
  update_after, update_offer_draft, ready_after, mark_offer_ready, void_after, void_offer,
}
use ai_recruitment.Offers.Sending.{
  OfferSendResult, confirm_offer_send, retry_offer_send, mark_stale_failed_offer_send_attempt,
}
use ai_recruitment.Offers.Worker.{
  MailOutcome, MailSendResult, pick_up, pick_up_at, pick_up_found, open_claim, open_offer,
  open_version, bury_orphan, bury_unversioned, finish, finish_owned, finish_sent, finish_retry,
  finish_dead,
}
use ai_recruitment.Offers.Versions.{VersionMove, stay, add, fix, Writes, mark_stale-versions}
use ai_recruitment.Offers.Versions.Steps.{
  after_consume-Writes, update_after-Writes, ready_after-Writes, void_after-Writes,
  confirm_after-Writes, retry_after-Writes, create_after-Writes,
}
use ai_recruitment.Offers.System.{
  ApiCall, run_call, World, picked, opened, after_send, settle_delivery, delivered, Step, call,
  pick, open_next, deliver_next, Run, begin, next,
}
use ai_recruitment.Offers.System.Runs.{settle_pick-db, settle_open-db}

void_offer-Writes :
    (x : External) (c : Request) (offer_id : ℕ) (reason : Text) (lock : ℕ) (key : Option Text)
    (db : Db) (r : OfferResult × Db)
    → void_offer x c offer_id reason lock key db ≡ ok r
    → Writes db r.1
unfolding void_offer
void_offer-Writes x c offer_id reason lock key db r e =
    elim (Bool-cases (is_empty (strip reason))) [
      | inl b ↦ ground (arith, b, e)
      | inr b ↦
          after_consume-Writes x c IdempotentAction.offer_void offer_id key
            (Payload.void_payload offer_id lock reason key)
            (void_after x c offer_id reason lock key) db r
            (λ k. void_after-Writes x c offer_id reason lock key k db r) (ground (arith, b, e))
    ]

confirm_offer_send-Writes :
    (c : Request) (offer_id vid lock attempt_id : ℕ) (key : Text) (db : Db)
    (r : OfferSendResult × Db)
    → confirm_offer_send c offer_id vid lock attempt_id key db ≡ ok r
    → Writes db r.1
unfolding confirm_offer_send
confirm_offer_send-Writes c offer_id vid lock attempt_id key db r e =
    elim (Bool-cases (is_empty (strip key))) [
      | inl b ↦ ground (arith, b, e)
      | inr b ↦
          confirm_after-Writes c offer_id vid lock attempt_id key
            (find_attempt_by_key offer_id key db) db r (ground (arith, b, e))
    ]

retry_offer_send-Writes :
    (c : Request) (offer_id lock attempt_id : ℕ) (key : Text) (db : Db) (r : OfferSendResult × Db)
    → retry_offer_send c offer_id lock attempt_id key db ≡ ok r
    → Writes db r.1
unfolding retry_offer_send
retry_offer_send-Writes c offer_id lock attempt_id key db r e =
    elim (Bool-cases (is_empty (strip key))) [
      | inl b ↦ ground (arith, b, e)
      | inr b ↦
          retry_after-Writes c offer_id lock attempt_id key (find_attempt_by_key offer_id key db) db
            r (ground (arith, b, e))
    ]

-- A call makes one write at most.
run_call-Writes : (x : External) (r : ApiCall) (db : Db) → Writes db (run_call x r db)
unfolding run_call create_offer update_offer_draft mark_offer_ready
run_call-Writes x (ApiCall.create c a o v key) db =
    committed-ok (Writes db) (create_offer x c a o v key db) db
      (λ r e.
        after_consume-Writes x c IdempotentAction.offer_create a key (Payload.create_payload a key)
          (create_after x c a o v key) db r (λ k. create_after-Writes x c a o v key k db r) e)
      stay
run_call-Writes x (ApiCall.update c o v s h t lock key) db =
    committed-ok (Writes db) (update_offer_draft x c o v s h t lock key db) db
      (λ r e.
        after_consume-Writes x c IdempotentAction.offer_update o key
          (Payload.update_payload o lock (x.content_hash s h t) key)
          (update_after x c o v s h t lock key) db r
          (λ k. update_after-Writes x c o v s h t lock key k db r) e)
      stay
run_call-Writes x (ApiCall.ready c o lock key) db =
    committed-ok (Writes db) (mark_offer_ready x c o lock key db) db
      (λ r e.
        after_consume-Writes x c IdempotentAction.offer_ready o key
          (Payload.ready_payload o lock key) (ready_after x c o lock key) db r
          (λ k. ready_after-Writes x c o lock key k db r) e)
      stay
run_call-Writes x (ApiCall.void c o reason lock key) db =
    committed-ok (Writes db) (void_offer x c o reason lock key db) db
      (λ r e. void_offer-Writes x c o reason lock key db r e) stay
run_call-Writes x (ApiCall.confirm c o v lock a key) db =
    committed-ok (Writes db) (confirm_offer_send c o v lock a key db) db
      (λ r e. confirm_offer_send-Writes c o v lock a key db r e) stay
run_call-Writes x (ApiCall.retry c o lock a key) db =
    committed-ok (Writes db) (retry_offer_send c o lock a key db) db
      (λ r e. retry_offer_send-Writes c o lock a key db r e) stay
run_call-Writes x (ApiCall.reclaim c o a expected) db =
    committed-ok (Writes db) (mark_stale_failed_offer_send_attempt c o a expected db) db
      (λ r e. rw (mark_stale-versions c o a expected db r e) stay) stay

pick_up_at-versions :
    (now id : ℕ) (a : OfferSendAttempt) (s : AttemptStatus) (db : Db) (r : MailOutcome × Db)
    → pick_up_at now id a s db ≡ ok r
    → r.1.offer_versions ≡ db.offer_versions
unfolding pick_up_at
pick_up_at-versions now id a s db r e = ground arith

pick_up-versions :
    (now id : ℕ) (db : Db) (r : MailOutcome × Db)
    → pick_up now id db ≡ ok r
    → r.1.offer_versions ≡ db.offer_versions
unfolding pick_up pick_up_found
pick_up-versions now id db r e = elim (Option-cases (lookup id db.send_attempts)) [
  | inl n ↦ ground (arith, n, e)
  | inr (a, f) ↦ pick_up_at-versions now id a a.status db r (ground (arith, f, e))
]

open_claim-versions :
    (now id : ℕ) (a : OfferSendAttempt) (db : Db) (r : MailOutcome × Db)
    → open_claim now id a db ≡ ok r
    → r.1.offer_versions ≡ db.offer_versions
unfolding open_claim open_offer open_version bury_orphan bury_unversioned
open_claim-versions now id a db r e = ground arith

finish-versions :
    (now id next_id : ℕ) (key : Text) (result : MailSendResult) (a : OfferSendAttempt) (db : Db)
    (r : MailOutcome × Db)
    → finish now id next_id key result a db ≡ ok r
    → r.1.offer_versions ≡ db.offer_versions
unfolding finish finish_owned finish_sent finish_retry finish_dead
finish-versions now id next_id key result a db r e = ground arith

after_send-versions :
    (now id next_id : ℕ) (key : Text) (result : MailSendResult) (a : OfferSendAttempt)
    (r : MailOutcome) (db : Db)
    → (after_send now id next_id key result a r db).offer_versions ≡ db.offer_versions
unfolding after_send
after_send-versions now id next_id key result a (MailOutcome.deliver v) db =
    committed-ok (λ d. d.offer_versions ≡ db.offer_versions) (finish now id next_id key result a db)
      db (λ r e. finish-versions now id next_id key result a db r e) refl
after_send-versions now id next_id key result a _ db = refl

settle_delivery-versions :
    (now id next_id : ℕ) (key : Text) (result : MailSendResult) (a : OfferSendAttempt) (w : World)
    (m : Result OfferError (MailOutcome × Db))
    → (settle_delivery now id next_id key result a w m).db.offer_versions ≡ w.db.offer_versions
unfolding settle_delivery
settle_delivery-versions now id next_id key result a w (ok p) =
    after_send-versions now id next_id key result a p.0 w.db
settle_delivery-versions now id next_id key result a w (err e) = refl

opened-Writes :
    (now id : ℕ) (a : OfferSendAttempt) (others : List ℕ) (w : World)
    → Writes w.db (opened now id a others w).db
unfolding opened
opened-Writes now id a others w = rw (settle_open-db id others w (open_claim now id a w.db)) (
    committed-ok (Writes w.db) (open_claim now id a w.db) w.db
      (λ r q. rw (open_claim-versions now id a w.db r q) stay) stay)

-- So does a step of the system.
Step-Writes : (x : External) {w w' : World} → Step x w w' → Writes w.db w'.db
unfolding picked delivered
Step-Writes x (call w r) = run_call-Writes x r w.db
Step-Writes x (pick w now id) = rw (settle_pick-db id w (pick_up now id w.db)) (
    committed-ok (Writes w.db) (pick_up now id w.db) w.db
      (λ r e. rw (pick_up-versions now id w.db r e) stay) stay)
Step-Writes x (open_next w now id a row before behind c g e i) =
    opened-Writes now id a (before ++ behind) w
Step-Writes x (deliver_next w now later id next_id key result a row before behind c g e i) =
    let w' = opened now id a (before ++ behind) w in
    rw (settle_delivery-versions later id next_id key result a w' (open_claim now id a w.db))
      (opened-Writes now id a (before ++ behind) w)

-- The version is there, with the same content, and frozen if it was.
abbrev pub IsKept : ℕ → OfferVersion → Table OfferVersion → Type 0
IsKept id v t = (f : Bool) × (lookup id t ≡ some (record v { frozen = f })) × (bit v.frozen ≤ bit f)

fix-IsKept :
    (id : ℕ) (v : OfferVersion) (t : Table OfferVersion) (j : ℕ) (u : OfferVersion) (g : Bool)
    → lookup j t ≡ some u
    → bit u.frozen ≤ bit g
    → IsKept id v t
    → IsKept id v (put j (record u { frozen = g }) t)
fix-IsKept id v t j u g e m (f, q, n) = elim (Bool-cases (j == id)) [
  | inl s ↦ (
    g,
    ground (arith, s, e, q, lookup-put id j (record u { frozen = g }) t),
    ground (arith, s, e, q, m, n),
  )
  | inr s ↦ (f, ground (arith, s, q, lookup-put id j (record u { frozen = g }) t), n)
]

VersionMove-IsKept :
    {t t' : Table OfferVersion} (id : ℕ) (v : OfferVersion)
    → VersionMove t t'
    → IsKept id v t
    → IsKept id v t'
VersionMove-IsKept id v stay h = h
VersionMove-IsKept {t} id v (add j u n) (f, q, m) =
    (f, ground (arith, n, q, lookup-put id j u t), m)
VersionMove-IsKept {t} id v (fix j u g e m) h = fix-IsKept id v t j u g e m h

-- However API calls and worker phases interleave, an offer version that is there stays, with every
-- column but `frozen` as it was, and if it was frozen it stays frozen.
pub Run-IsKept :
    (x : External) (w₀ w : World) (id : ℕ) (v : OfferVersion)
    → lookup id w₀.db.offer_versions ≡ some v
    → Run x w₀ w
    → (f : Bool) × (lookup id w.db.offer_versions ≡ some (record v { frozen = f }))
      × (bit v.frozen ≤ bit f)
Run-IsKept x w₀ w id v e begin = (v.frozen, e, omega arith)
Run-IsKept x w₀ w id v e (next r s) =
    VersionMove-IsKept id v (Step-Writes x s) (Run-IsKept x w₀ _ id v e r)
