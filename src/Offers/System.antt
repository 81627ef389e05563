-- ===== src/Offers/System.antt =====
-- The whole of offer delivery: API calls of backend/app/services/offers.py and the phases of any
-- number of mail workers (backend/app/workers/mail_tasks.py), interleaved in any order. The queue
-- may deliver a message late, twice or again, so a worker may pick up any attempt at any time. A
-- worker is two transactions: the claim, and all that follows it, from the lock on the offer on.
pub mod Runs
pub mod Once
pub mod Content
use ai_recruitment.Common.{ℕ, ◌≡◌, Option, none, some, List, [], ◌∷◌, ◌++◌, Result, ok, err}
use ai_recruitment.Common.Text.{Text}
use ai_recruitment.Common.Table.{Table, lookup, put}
use ai_recruitment.Models.{Db, OfferSendAttempt}
use ai_recruitment.Offers.Base.{External, Request, OfferError, committed}
use ai_recruitment.Offers.Drafts.{create_offer}
use ai_recruitment.Offers.Edits.{update_offer_draft, mark_offer_ready, void_offer}
use ai_recruitment.Offers.Sending.{
  confirm_offer_send, retry_offer_send, mark_stale_failed_offer_send_attempt,
}
use ai_recruitment.Offers.Worker.{MailOutcome, MailSendResult, pick_up, open_claim, finish}

-- The calls with their arguments; the ids that `uuid4` makes are arguments too.
pub data ApiCall : Type 0 where
  create : Request → (application_id offer_id version_id : ℕ) → Option Text → ApiCall
  update :
      Request
      → (offer_id version_id : ℕ) → (subject body_html body_text : Text) → (lock_version : ℕ)
      → Option Text
      → ApiCall
  ready : Request → (offer_id lock_version : ℕ) → Option Text → ApiCall
  void : Request → (offer_id : ℕ) → (reason : Text) → (lock_version : ℕ) → Option Text → ApiCall
  confirm : Request → (offer_id version_id lock_version attempt_id : ℕ) → Text → ApiCall
  retry : Request → (offer_id lock_version attempt_id : ℕ) → Text → ApiCall
  reclaim : Request → (offer_id attempt_id expected : ℕ) → ApiCall

-- The database behind a call.
unfoldable pub run_call : External → ApiCall → Db → Db
run_call x (ApiCall.create c a o v key) db = committed db (create_offer x c a o v key db)
run_call x (ApiCall.update c o v s h t lock key) db =
    committed db (update_offer_draft x c o v s h t lock key db)
run_call x (ApiCall.ready c o lock key) db = committed db (mark_offer_ready x c o lock key db)
run_call x (ApiCall.void c o reason lock key) db =
    committed db (void_offer x c o reason lock key db)
run_call x (ApiCall.confirm c o v lock a key) db =
    committed db (confirm_offer_send c o v lock a key db)
run_call x (ApiCall.retry c o lock a key) db = committed db (retry_offer_send c o lock a key db)
run_call x (ApiCall.reclaim c o a expected) db =
    committed db (mark_stale_failed_offer_send_attempt c o a expected db)

-- The database, the attempts that workers have claimed and not yet sent, the objects of these
-- attempts that the workers hold, and every attempt that was handed to the mail provider, once for
-- each time.
pub record World : Type 0 where
  pub db : Db
  pub claimed : List ℕ
  pub held : Table OfferSendAttempt
  pub handed : List ℕ

-- The attempt is this worker's, if the claim succeeded.
unfoldable pub after_pick : ℕ → MailOutcome → List ℕ → List ℕ
after_pick id (MailOutcome.claimed a) xs = id ∷ xs
after_pick id _ xs = xs

-- The worker holds the object of its claim.
unfoldable pub held_after : ℕ → MailOutcome → Table OfferSendAttempt → Table OfferSendAttempt
held_after id (MailOutcome.claimed a) held = put id a held
held_after id _ held = held

-- The attempt goes to the provider, if the second phase gets so far.
unfoldable pub after_open : ℕ → MailOutcome → List ℕ → List ℕ
after_open id (MailOutcome.deliver v) xs = id ∷ xs
after_open id _ xs = xs

-- A first phase that raises commits nothing and claims nothing.
unfoldable pub settle_pick : ℕ → World → Result OfferError (MailOutcome × Db) → World
unfolding after_pick held_after
settle_pick id w (ok (r, db')) = record {
  db = db';
  claimed = after_pick id r w.claimed;
  held = held_after id r w.held;
  handed = w.handed;
}
settle_pick id w (err e) = w

unfoldable pub picked : ℕ → ℕ → World → World
picked now id w = settle_pick id w (pick_up now id w.db)

-- A worker that has claimed `id` goes on, with `others` the claims of the other workers.
unfoldable pub settle_open : ℕ → List ℕ → World → Result OfferError (MailOutcome × Db) → World
unfolding after_open
settle_open id others w (ok (r, db')) = record {
  db = db';
  claimed = others;
  held = w.held;
  handed = after_open id r w.handed;
}
settle_open id others w (err e) = record w { claimed = others }

-- `a` is the object that the worker holds.
unfoldable pub opened : ℕ → ℕ → OfferSendAttempt → List ℕ → World → World
opened now id a others w = settle_open id others w (open_claim now id a w.db)

-- The provider's answer, and the rest of the transaction, if the attempt went to the provider.
unfoldable pub after_send :
    ℕ → ℕ → ℕ → Text → MailSendResult → OfferSendAttempt → MailOutcome → Db → Db
after_send now id next_id key result a (MailOutcome.deliver v) db =
    committed db (finish now id next_id key result a db)
after_send now id next_id key result a _ db = db

unfoldable pub settle_delivery :
    ℕ
    → ℕ
    → ℕ
    → Text
    → MailSendResult
    → OfferSendAttempt
    → World
    → Result OfferError (MailOutcome × Db)
    → World
unfolding after_send
settle_delivery now id next_id key result a w (ok (r, db')) = record w {
  db = after_send now id next_id key result a r w.db;
}
settle_delivery now id next_id key result a w (err e) = w

-- The second transaction of a worker. The lock on the offer holds from its start to its end, so
-- nothing that concerns the attempt is committed in between.
unfoldable pub delivered :
    (now later id next_id : ℕ) → Text → MailSendResult → OfferSendAttempt → List ℕ → World → World
unfolding opened settle_delivery
delivered now later id next_id key result a others w =
    settle_delivery later id next_id key result a (opened now id a others w)
      (open_claim now id a w.db)

-- One transaction. A worker goes on with the object that it holds; `row` is the row of its attempt,
-- which is never deleted, and keeps its offer.
pub data Step (x : External) : World → World → Type 0 where
  call : (w : World) (r : ApiCall) → Step x w (record w { db = run_call x r w.db })
  pick : (w : World) (now id : ℕ) → Step x w (picked now id w)
  -- A worker that dies before the transaction's end.
  open_next :
      (w : World) (now id : ℕ) (a row : OfferSendAttempt) (before behind : List ℕ)
      → w.claimed ≡ before ++ id ∷ behind
      → lookup id w.held ≡ some a
      → lookup id w.db.send_attempts ≡ some row
      → row.offer_id ≡ a.offer_id
      → Step x w (opened now id a (before ++ behind) w)
  deliver_next :
      (w : World) (now later id next_id : ℕ) (key : Text) (result : MailSendResult)
      (a row : OfferSendAttempt) (before behind : List ℕ)
      → w.claimed ≡ before ++ id ∷ behind
      → lookup id w.held ≡ some a
      → lookup id w.db.send_attempts ≡ some row
      → row.offer_id ≡ a.offer_id
      → Step x w (delivered now later id next_id key result a (before ++ behind) w)

pub data Run (x : External) (w₀ : World) : World → Type 0 where
  begin : Run x w₀ w₀
  next : {w w' : World} → Run x w₀ w → Step x w w' → Run x w₀ w'
