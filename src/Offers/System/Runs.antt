-- ===== src/Offers/System/Runs.antt =====
-- Every run of the system only makes the moves of Offers/Moves.antt.
use ai_recruitment.Common.{ℕ, ◌≡◌, ◌≤◌, refl, ◌++◌, List, [], some, Result, ok, err}
use ai_recruitment.Common.Table.{lookup, count}
use ai_recruitment.Models.{Db, Offer, OfferSendAttempt, mail_max_auto_attempts}
use ai_recruitment.Offers.Base.{External, OfferError, committed}
use ai_recruitment.Offers.Moves.{IsReached, here}
use ai_recruitment.Offers.Settlement.{
  Settled, Reached-Settled, live_of, done_of, sending_of, sent_of,
}
use ai_recruitment.Offers.Store.{active_for}
use ai_recruitment.Offers.Active.{AtMostOneActive, Reached-AtMostOneActive}
use ai_recruitment.Offers.Finality.{IsFinal, IsNumbered, Reached-IsFinal, Reached-IsNumbered}
use ai_recruitment.Offers.Drafts.Steps.{create_offer-IsReached}
use ai_recruitment.Offers.Edits.Steps.{
  update_offer_draft-IsReached, mark_offer_ready-IsReached, void_offer-IsReached,
}
use ai_recruitment.Offers.Sending.Steps.{
  confirm_offer_send-IsReached, retry_offer_send-IsReached, mark_stale-IsReached,
}
use ai_recruitment.Common.Text.{Text}
use ai_recruitment.Offers.Worker.{MailOutcome, MailSendResult, pick_up, open_claim}
use ai_recruitment.Offers.Worker.Steps.{pick_up-IsReached, open_claim-IsReached, finish-IsReached}
use ai_recruitment.Offers.System.{
  ApiCall, run_call, World, settle_pick, settle_open, picked, opened, after_send, settle_delivery,
  delivered, Step, call, pick, open_next, deliver_next, Run, begin, next,
}

-- Each call refines the abstract moves, on every branch.
pub run_call-IsReached :
    (x : External) (r : ApiCall) (base db : Db)
    → IsReached base db
    → IsReached base (run_call x r db)
unfolding run_call
run_call-IsReached x (ApiCall.create c a o v key) base db h =
    create_offer-IsReached base x c a o v key db h
run_call-IsReached x (ApiCall.update c o v s b t lock key) base db h =
    update_offer_draft-IsReached base x c o v s b t lock key db h
run_call-IsReached x (ApiCall.ready c o lock key) base db h =
    mark_offer_ready-IsReached base x c o lock key db h
run_call-IsReached x (ApiCall.void c o reason lock key) base db h =
    void_offer-IsReached base x c o reason lock key db h
run_call-IsReached x (ApiCall.confirm c o v lock a key) base db h =
    confirm_offer_send-IsReached base c o v lock a key db h
run_call-IsReached x (ApiCall.retry c o lock a key) base db h =
    retry_offer_send-IsReached base c o lock a key db h
run_call-IsReached x (ApiCall.reclaim c o a expected) base db h =
    mark_stale-IsReached base c o a expected db h

pub settle_pick-db :
    (id : ℕ) (w : World) (m : Result OfferError (MailOutcome × Db))
    → (settle_pick id w m).db ≡ committed w.db m
unfolding settle_pick
settle_pick-db id w (ok p) = refl
settle_pick-db id w (err e) = refl

pub settle_open-db :
    (id : ℕ) (others : List ℕ) (w : World) (m : Result OfferError (MailOutcome × Db))
    → (settle_open id others w m).db ≡ committed w.db m
unfolding settle_open
settle_open-db id others w (ok p) = refl
settle_open-db id others w (err e) = refl

picked-IsReached :
    (base : Db) (now id : ℕ) (w : World) → IsReached base w.db → IsReached base (picked now id w).db
unfolding picked
picked-IsReached base now id w h =
    rw (settle_pick-db id w (pick_up now id w.db)) (pick_up-IsReached base now id w.db h)

opened-IsReached :
    (base : Db) (now id : ℕ) (a row : OfferSendAttempt) (others : List ℕ) (w : World)
    → lookup id w.db.send_attempts ≡ some row
    → row.offer_id ≡ a.offer_id
    → IsReached base w.db
    → IsReached base (opened now id a others w).db
unfolding opened
opened-IsReached base now id a row others w e i h =
    rw (settle_open-db id others w (open_claim now id a w.db))
      (open_claim-IsReached base now id a row w.db e i h)

after_send-IsReached :
    (base : Db) (now id next_id : ℕ) (key : Text) (result : MailSendResult) (a : OfferSendAttempt)
    (r : MailOutcome) (db : Db)
    → IsReached base db
    → IsReached base (after_send now id next_id key result a r db)
unfolding after_send
after_send-IsReached base now id next_id key result a (MailOutcome.deliver v) db h =
    finish-IsReached base now id next_id key result a db h
after_send-IsReached base now id next_id key result a _ db h = h

settle_delivery-IsReached :
    (base : Db) (now id next_id : ℕ) (key : Text) (result : MailSendResult) (a : OfferSendAttempt)
    (w : World) (m : Result OfferError (MailOutcome × Db))
    → IsReached base w.db
    → IsReached base (settle_delivery now id next_id key result a w m).db
unfolding settle_delivery
settle_delivery-IsReached base now id next_id key result a w (ok p) h =
    after_send-IsReached base now id next_id key result a p.0 w.db h
settle_delivery-IsReached base now id next_id key result a w (err e) h = h

-- Each step of the system makes moves only.
pub Step-IsReached :
    (x : External) (base : Db) {w w' : World}
    → Step x w w'
    → IsReached base w.db
    → IsReached base w'.db
unfolding delivered
Step-IsReached x base (call w r) h = run_call-IsReached x r base w.db h
Step-IsReached x base (pick w now id) h = picked-IsReached base now id w h
Step-IsReached x base (open_next w now id a row before behind c g e i) h =
    opened-IsReached base now id a row (before ++ behind) w e i h
Step-IsReached x base (deliver_next w now later id next_id key result a row before behind c g e i)
      h =
    settle_delivery-IsReached base later id next_id key result a
      (opened now id a (before ++ behind) w) (open_claim now id a w.db)
      (opened-IsReached base now id a row (before ++ behind) w e i h)

-- Every run of API calls and worker phases, in any order, takes the offers and the attempts of its
-- first database to those of its last by the abstract moves alone.
pub Run-IsReached : (x : External) {w₀ w : World} → Run x w₀ w → IsReached w₀.db w.db
unfolding IsReached
Run-IsReached x {w₀} begin = here
Run-IsReached x {w₀} (next r s) = Step-IsReached x w₀.db s (Run-IsReached x r)

-- The starting world: nothing is claimed or handed over yet, offers and attempts agree, the
-- attempts are numbered, and no application has two active offers.
pub record IsStart (w : World) : Type 0 where
  pub settled : Settled w.db.offers w.db.send_attempts
  pub numbered : IsNumbered w.db.send_attempts
  pub active : AtMostOneActive w.db.offers
  pub unclaimed : w.claimed ≡ []
  pub unhanded : w.handed ≡ []

-- From a start, however API calls and worker transactions interleave, in every reachable database a
-- `sending` offer has an attempt that is pending or running, and an offer is `sent` exactly when one
-- of its attempts has succeeded, and never has two that have.
pub Run-Settled :
    (x : External) (w₀ w : World) (k : ℕ)
    → IsStart w₀
    → Run x w₀ w
    → (sending_of (lookup k w.db.offers) ≤ count (live_of k) w.db.send_attempts)
      × (count (done_of k) w.db.send_attempts ≡ sent_of (lookup k w.db.offers))
unfolding IsReached
Run-Settled x w₀ w k s r = Reached-Settled s.settled (Run-IsReached x r) k

-- However API calls and worker phases interleave, an offer that is sent or voided keeps its row
-- unchanged.
pub Run-IsFinal :
    (x : External) (w₀ w : World) (k : ℕ) (o : Offer)
    → lookup k w₀.db.offers ≡ some o
    → IsFinal o.status
    → Run x w₀ w
    → lookup k w.db.offers ≡ some o
unfolding IsReached
Run-IsFinal x w₀ w k o e f r = Reached-IsFinal k o e f (Run-IsReached x r)

-- From a start, every attempt of a reachable database is numbered from 1 to the greatest number of
-- automatic attempts.
pub Run-numbered :
    (x : External) (w₀ w : World) (id : ℕ) (a : OfferSendAttempt)
    → IsStart w₀
    → Run x w₀ w
    → lookup id w.db.send_attempts ≡ some a
    → (1 ≤ a.attempt_no) × (a.attempt_no ≤ mail_max_auto_attempts)
unfolding IsReached
Run-numbered x w₀ w id a s r e = Reached-IsNumbered s.numbered (Run-IsReached x r) id a e

-- From a start, no application of a reachable database has two offers that are not voided.
pub Run-active :
    (x : External) (w₀ w : World) (application_id : ℕ)
    → IsStart w₀
    → Run x w₀ w
    → count (active_for application_id) w.db.offers ≤ 1
unfolding IsReached
Run-active x w₀ w application_id s r =
    Reached-AtMostOneActive s.active (Run-IsReached x r) application_id
