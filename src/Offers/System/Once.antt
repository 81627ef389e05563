-- ===== src/Offers/System/Once.antt =====
-- No attempt reaches the mail provider twice, however often the queue delivers it and however many
-- workers there are: the claim under the row lock is what protects it.
use ai_recruitment.Common.{
  ℕ, ◌+◌, ◌≤◌, ◌≡◌, refl, ◌++◌, List, Option, none, some, ◌==◌, bit, Result, occurrences,
  occurrences-insert, ok, err, arith,
}
use ai_recruitment.Common.Table.{lookup, lookup-put}
use ai_recruitment.Models.{Db, OfferSendAttempt, AttemptStatus}
use ai_recruitment.Offers.Base.{External, OfferError}
use ai_recruitment.Offers.Moves.{IsReached, here}
use ai_recruitment.Offers.Finality.{claimed_of, Reached-claimed_of}
use ai_recruitment.Common.Text.{Text}
use ai_recruitment.Offers.Worker.{
  MailOutcome, MailSendResult, claimed_attempt, pick_up, pick_up_at, pick_up_found, open_claim,
}
use ai_recruitment.Offers.System.{
  World, after_pick, after_open, settle_pick, settle_open, picked, opened, settle_delivery,
  delivered, Step, call, pick, open_next, deliver_next, Run, begin, next,
}
use ai_recruitment.Offers.System.Runs.{Step-IsReached, IsStart}

-- A claim takes the attempt out of `pending`, which it cannot enter again.
pick_up_at-claimed_of :
    (j now id : ℕ) (a : OfferSendAttempt) (s : AttemptStatus) (xs : List ℕ) (db : Db)
    (p : MailOutcome × Db)
    → lookup id db.send_attempts ≡ some a
    → a.status ≡ s
    → pick_up_at now id a s db ≡ ok p
    → occurrences j (after_pick id p.0 xs) + claimed_of (lookup j db.send_attempts)
      ≤ occurrences j xs + claimed_of (lookup j p.1.send_attempts)
unfolding pick_up_at claimed_attempt after_pick
pick_up_at-claimed_of j now id a AttemptStatus.pending xs db p e q h =
    ground (arith, lookup-put j id (claimed_attempt now a) db.send_attempts)
pick_up_at-claimed_of j now id a AttemptStatus.running xs db p e q h = ground arith
pick_up_at-claimed_of j now id a AttemptStatus.succeeded xs db p e q h = ground arith
pick_up_at-claimed_of j now id a AttemptStatus.failed xs db p e q h = ground arith
pick_up_at-claimed_of j now id a AttemptStatus.dead xs db p e q h = ground arith

pick_up_found-claimed_of :
    (j now id : ℕ) (found : Option OfferSendAttempt) (xs : List ℕ) (db : Db) (p : MailOutcome × Db)
    → lookup id db.send_attempts ≡ found
    → pick_up_found now id found db ≡ ok p
    → occurrences j (after_pick id p.0 xs) + claimed_of (lookup j db.send_attempts)
      ≤ occurrences j xs + claimed_of (lookup j p.1.send_attempts)
unfolding pick_up_found after_pick
pick_up_found-claimed_of j now id none xs db p e h = ground arith
pick_up_found-claimed_of j now id (some a) xs db p e h =
    pick_up_at-claimed_of j now id a a.status xs db p e refl h

settle_pick-claimed_of :
    (j id : ℕ) (w : World) (m : Result OfferError (MailOutcome × Db))
    → ((p : MailOutcome × Db)
        → m ≡ ok p
        → occurrences j (after_pick id p.0 w.claimed) + claimed_of (lookup j w.db.send_attempts)
          ≤ occurrences j w.claimed + claimed_of (lookup j p.1.send_attempts))
    → let w' = settle_pick id w m in
      occurrences j w'.claimed + occurrences j w'.handed + claimed_of (lookup j w.db.send_attempts)
      ≤ occurrences j w.claimed + occurrences j w.handed + claimed_of (lookup j w'.db.send_attempts)
unfolding settle_pick
settle_pick-claimed_of j id w (ok p) h = omega (arith, h p refl)
settle_pick-claimed_of j id w (err e) h = omega arith

-- Only an attempt that has left `pending` is claimed or handed over, and once in all.
unfoldable pub IsOnce : World → Type 0
IsOnce w =
    (j : ℕ)
    → occurrences j w.claimed + occurrences j w.handed ≤ claimed_of (lookup j w.db.send_attempts)

picked-IsOnce : (now id : ℕ) (w : World) → IsOnce w → IsOnce (picked now id w)
unfolding IsOnce picked pick_up
picked-IsOnce now id w h = λ j. omega (
  arith,
  h j,
  settle_pick-claimed_of j id w (pick_up_found now id (lookup id w.db.send_attempts) w.db) (λ p e.
      pick_up_found-claimed_of j now id (lookup id w.db.send_attempts) w.claimed w.db p refl e),
)

after_open-count :
    (j id : ℕ) (r : MailOutcome) (xs : List ℕ)
    → occurrences j (after_open id r xs) ≤ bit (id == j) + occurrences j xs
unfolding after_open
after_open-count j id r xs = ground arith

settle_open-count :
    (j id : ℕ) (others : List ℕ) (w : World) (m : Result OfferError (MailOutcome × Db))
    → let w' = settle_open id others w m in
      occurrences j w'.claimed + occurrences j w'.handed
      ≤ occurrences j others + bit (id == j) + occurrences j w.handed
unfolding settle_open
settle_open-count j id others w (ok p) = omega (arith, after_open-count j id p.0 w.handed)
settle_open-count j id others w (err e) = omega arith

-- What follows a delivery claims and hands over nothing more.
settle_delivery-lists :
    (now id next_id : ℕ) (key : Text) (result : MailSendResult) (a : OfferSendAttempt) (w : World)
    (m : Result OfferError (MailOutcome × Db))
    → let w' = settle_delivery now id next_id key result a w m in
      (w'.claimed ≡ w.claimed) × (w'.handed ≡ w.handed)
unfolding settle_delivery
settle_delivery-lists now id next_id key result a w (ok p) = (refl, refl)
settle_delivery-lists now id next_id key result a w (err e) = (refl, refl)

-- Every step but a pick only moves claims, and never puts an attempt back to `pending`.
Step-IsOnce : (x : External) {w w' : World} → Step x w w' → IsOnce w → IsOnce w'
unfolding IsOnce IsReached opened delivered
Step-IsOnce x (call w r) h =
    λ j. omega (arith, h j, Reached-claimed_of j (Step-IsReached x w.db (call w r) here))
Step-IsOnce x (pick w now id) h = picked-IsOnce now id w h
Step-IsOnce x (open_next w now id a row before behind c g e i) h = λ j. ground (
  arith,
  h j,
  c,
  occurrences-insert j id before behind,
  settle_open-count j id (before ++ behind) w (open_claim now id a w.db),
  Reached-claimed_of j
      (Step-IsReached x w.db (open_next w now id a row before behind c g e i) here),
)
Step-IsOnce x (deliver_next w now later id next_id key result a row before behind c g e i) h = λ j.
    ground (
      arith,
      h j,
      c,
      occurrences-insert j id before behind,
      settle_delivery-lists later id next_id key result a (opened now id a (before ++ behind) w)
          (open_claim now id a w.db),
      settle_open-count j id (before ++ behind) w (open_claim now id a w.db),
      Reached-claimed_of j (
          Step-IsReached x w.db
            (deliver_next w now later id next_id key result a row before behind c g e i) here),
    )

Run-IsOnce : (x : External) {w₀ w : World} → IsStart w₀ → Run x w₀ w → IsOnce w
unfolding IsOnce
Run-IsOnce x s begin = λ j. ground (arith, s.unclaimed, s.unhanded)
Run-IsOnce x s (next r t) = Step-IsOnce x t (Run-IsOnce x s r)

-- From a start, however API calls and worker phases interleave, and however often the queue delivers an attempt,
-- each attempt is handed to the mail provider at most once, and only after it has been claimed.
pub handed_once :
    (x : External) (w₀ w : World) (id : ℕ)
    → IsStart w₀
    → Run x w₀ w
    → occurrences id w.handed ≤ claimed_of (lookup id w.db.send_attempts)
unfolding IsOnce
handed_once x w₀ w id s r = omega (arith, Run-IsOnce x s r id)
