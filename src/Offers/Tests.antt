-- ===== src/Offers/Tests.antt =====
-- Concrete runs of offer delivery.
use ai_recruitment.Common.{
  Bool, bit, ◌≡◌, refl, ◌≤◌, inl, true, none, some, [], ◌∷◌, occurrences, arith,
}
use ai_recruitment.Common.Text.{codes}
use ai_recruitment.Common.Table.{lookup, count, put, find_row}
use ai_recruitment.Models.{Offer, OfferStatus, mail_max_auto_attempts}
use ai_recruitment.Offers.Sending.{confirm_offer_send, confirm_after, sendable, write_sending}
use ai_recruitment.Offers.Worker.{
  MailSendResult, pick_up, pick_up_found, pick_up_at, open_claim, open_offer, open_version, finish,
  finish_owned, finish_sent,
}
use ai_recruitment.Offers.Store.{active_for}
use ai_recruitment.Offers.Samples.{
  libraries, officer, ready_row, version_row, ready_db, running_row,
}
use ai_recruitment.Offers.System.{
  ApiCall, settle_pick, settle_open, run_call, World, picked, opened, after_send, settle_delivery,
  delivered, held_after, Run, begin, next, call, pick, deliver_next,
}
use ai_recruitment.Offers.System.Runs.{
  IsStart, Run-IsReached, Run-Settled, Run-active, Run-IsFinal, Run-numbered,
}
use ai_recruitment.Offers.System.Once.{handed_once}
use ai_recruitment.Offers.System.Content.{Run-IsKept}
use ai_recruitment.Offers.Moves.{IsReached}
use ai_recruitment.Offers.Settlement.{live_of, done_of, sending_of, sent_of}
use ai_recruitment.Offers.Finality.{claimed_of}

abbrev start : World
start = record { db = ready_db; claimed = []; held = []; handed = [] }

start-IsStart : IsStart start
unfolding lookup count
start-IsStart = record {
  settled = λ k. ground arith;
  numbered = λ j a e. ground arith;
  active = λ j. ground arith;
  unclaimed = refl;
  unhanded = refl;
}

abbrev confirmation : ApiCall
confirmation = ApiCall.confirm officer 20 30 3 40 (codes "k1")

confirmed : World
confirmed = record start { db = run_call libraries confirmation ready_db }

claimed_world : World
claimed_world = picked 1001 40 confirmed

abbrev success : MailSendResult
success = record { success = true; error_code = none; error_message_safe = none }

finished_world : World
finished_world = delivered 1002 1003 40 41 (codes "k2") success running_row [] claimed_world

-- The worker's claim.
claimed_world-claimed :
    (claimed_world.claimed ≡ 40 ∷ [])
    × (lookup 40 claimed_world.db.send_attempts ≡ some running_row)
    × (lookup 40 claimed_world.held ≡ some running_row)
unfolding claimed_world confirmed run_call confirm_offer_send confirm_after find_row sendable
    write_sending put lookup picked settle_pick pick_up pick_up_found pick_up_at held_after
claimed_world-claimed = (refl, refl, refl)

delivery : Run libraries start finished_world
unfolding finished_world claimed_world confirmed
delivery = next (next (next begin (call start confirmation)) (pick confirmed 1001 40)) (
    deliver_next claimed_world 1002 1003 40 41 (codes "k2") success running_row running_row [] []
      claimed_world-claimed.0 claimed_world-claimed.2 claimed_world-claimed.1 refl)

-- The delivery ends with the offer sent, and one attempt handed to the provider.
finished_world-sent :
    (finished_world.handed ≡ 40 ∷ []) × (sent_of (lookup 20 finished_world.db.offers) ≡ 1)
unfolding finished_world delivered settle_delivery after_send finish finish_owned finish_sent opened
    settle_open open_claim open_offer open_version claimed_world confirmed run_call
    confirm_offer_send confirm_after find_row sendable write_sending put lookup picked settle_pick
    pick_up pick_up_found pick_up_at
finished_world-sent = (refl, refl)

Run-Settled_example :
    (sending_of (lookup 20 finished_world.db.offers)
      ≤ count (live_of 20) finished_world.db.send_attempts)
    × (count (done_of 20) finished_world.db.send_attempts
        ≡ sent_of (lookup 20 finished_world.db.offers))
Run-Settled_example = Run-Settled libraries start finished_world 20 start-IsStart delivery

handed_once_example :
    occurrences 40 finished_world.handed ≤ claimed_of (lookup 40 finished_world.db.send_attempts)
handed_once_example = handed_once libraries start finished_world 40 start-IsStart delivery

Run-active_example : count (active_for 7) finished_world.db.offers ≤ 1
Run-active_example = Run-active libraries start finished_world 7 start-IsStart delivery

-- A start with the offer sent already.
abbrev sent_row : Offer
sent_row = record ready_row { status = OfferStatus.sent }

abbrev sent_start : World
sent_start = record {
  db = record ready_db { offers = (20, sent_row) ∷ []; send_attempts = (40, running_row) ∷ [] };
  claimed = [];
  held = [];
  handed = [];
}

confirmed_again : World
confirmed_again = record sent_start { db = run_call libraries confirmation sent_start.db }

again_world : World
again_world = picked 1001 40 confirmed_again

sent_start-row : lookup 20 sent_start.db.offers ≡ some sent_row
unfolding lookup
sent_start-row = refl

Run-IsFinal_example : lookup 20 again_world.db.offers ≡ some sent_row
unfolding again_world confirmed_again
Run-IsFinal_example =
    Run-IsFinal libraries sent_start again_world 20 sent_row sent_start-row (inl refl)
      (next (next begin (call sent_start confirmation)) (pick confirmed_again 1001 40))

Run-numbered_example :
    (1 ≤ running_row.attempt_no) × (running_row.attempt_no ≤ mail_max_auto_attempts)
unfolding claimed_world confirmed
Run-numbered_example =
    Run-numbered libraries start claimed_world 40 running_row start-IsStart
      (next (next begin (call start confirmation)) (pick confirmed 1001 40)) claimed_world-claimed.1

Run-IsReached_example : IsReached start.db finished_world.db
Run-IsReached_example = Run-IsReached libraries delivery

Run-IsKept_example :
    (f : Bool) × (lookup 30 finished_world.db.offer_versions
      ≡ some (record version_row { frozen = f }))
    × (bit version_row.frozen ≤ bit f)
unfolding lookup
Run-IsKept_example = Run-IsKept libraries start finished_world 30 version_row refl delivery
