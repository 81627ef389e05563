-- ===== src/Offers/Worker/Steps.antt =====
-- Each phase of the mail worker (backend/app/workers/mail_tasks.py) only makes the moves of
-- Offers/Moves.antt.
use ai_recruitment.Common.{
  ℕ, ◌+◌, ◌<◌, ◌≡◌, refl, inl, inr, Option, none, some, arith, Result-cases, Bool-cases, ltb,
}
use ai_recruitment.Common.Text.{Text, codes}
use ai_recruitment.Common.Table.{lookup}
use ai_recruitment.Models.{
  Db, Offer, OfferStatus, OfferSendAttempt, OfferVersion, AttemptStatus, is_running, is_sending,
  mail_max_auto_attempts,
}
use ai_recruitment.Offers.Base.{committed}
use ai_recruitment.Offers.Worker.Effects.{owned-ok, finish_retry-ok}
use ai_recruitment.Offers.Worker.{
  MailSendResult, pick_up, pick_up_at, pick_up_found, bury_orphan, bury_unversioned, open_version,
  open_offer, claimed_attempt, open_claim, dead_attempt, owned, finish, finish_owned, finish_sent,
  finish_retry, finish_dead, sent_attempt, failed_attempt, next_attempt, retry_countdown,
}
use ai_recruitment.Offers.Moves.{IsReached, then, claim, settle, again, orphan}

-- From any database `base`.
module _ (base : Db) where
  pick_up_at-IsReached :
      (now id : ℕ) (a : OfferSendAttempt) (s : AttemptStatus) (db : Db)
      → lookup id db.send_attempts ≡ some a
      → a.status ≡ s
      → IsReached base db
      → IsReached base (committed db (pick_up_at now id a s db))
  unfolding IsReached pick_up_at
  pick_up_at-IsReached now id a AttemptStatus.pending db e p h = then h (
      claim db.offers db.send_attempts id a (claimed_attempt now a) e p refl
        (record { same_offer = refl; same_number = refl }))
  pick_up_at-IsReached now id a AttemptStatus.running db e p h = h
  pick_up_at-IsReached now id a _ db e p h = h

  pick_up_found-IsReached :
      (now id : ℕ) (found : Option OfferSendAttempt) (db : Db)
      → lookup id db.send_attempts ≡ found
      → IsReached base db
      → IsReached base (committed db (pick_up_found now id found db))
  unfolding pick_up_found
  pick_up_found-IsReached now id none db e h = h
  pick_up_found-IsReached now id (some a) db e h =
      pick_up_at-IsReached now id a a.status db e refl h

  -- A delivery only makes moves up to its claim.
  pub pick_up-IsReached :
      (now id : ℕ) (db : Db) → IsReached base db → IsReached base (committed db (pick_up now id db))
  unfolding pick_up
  pick_up-IsReached now id db h =
      pick_up_found-IsReached now id (lookup id db.send_attempts) db refl h

  finish_sent-IsReached :
      (now id : ℕ) (held a : OfferSendAttempt) (o : Offer) (db : Db)
      → owned id held db ≡ some (a, o)
      → IsReached base db
      → IsReached base (committed db (finish_sent now id held a o db))
  unfolding IsReached finish_sent
  finish_sent-IsReached now id held a o db e h =
      let f = owned-ok id held db a o e in
      then h (
        settle db.offers db.send_attempts a.offer_id id o
          (record o { status = OfferStatus.sent; updated_at = now }) a (sent_attempt now held a) f.1
          f.2 (record { same_application = refl; lock_grows = omega arith }) f.0 refl
          (record { same_offer = refl; same_number = refl }) (inr (refl, refl)))

  finish_dead-IsReached :
      (now id : ℕ) (result : MailSendResult) (held a : OfferSendAttempt) (o : Offer) (db : Db)
      → owned id held db ≡ some (a, o)
      → IsReached base db
      → IsReached base (committed db (finish_dead now id result a o db))
  unfolding IsReached finish_dead
  finish_dead-IsReached now id result held a o db e h =
      let f = owned-ok id held db a o e in
      then h (
        settle db.offers db.send_attempts a.offer_id id o
          (record o { status = OfferStatus.failed; updated_at = now }) a
          (failed_attempt now AttemptStatus.dead a.next_retry_at result a) f.1 f.2
          (record { same_application = refl; lock_grows = omega arith }) f.0 refl
          (record { same_offer = refl; same_number = refl }) (inl (refl, refl)))

  finish_retry-IsReached :
      (now id next_id : ℕ) (key : Text) (result : MailSendResult) (held a : OfferSendAttempt)
      (o : Offer) (db : Db)
      → owned id held db ≡ some (a, o)
      → a.attempt_no < mail_max_auto_attempts
      → IsReached base db
      → IsReached base (committed db (finish_retry now id next_id key result a o db))
  unfolding IsReached
  finish_retry-IsReached now id next_id key result held a o db e more h =
      elim (Result-cases (finish_retry now id next_id key result a o db)) [
        | inl (r, w) ↦
            let f = owned-ok id held db a o e in
            let g = finish_retry-ok now id next_id key result a o db r.1 r.0 w in
            rw (w, g.1, g.2)
              (then h (
                again db.offers db.send_attempts a.offer_id id next_id o
                  (record o { updated_at = now }) a
                  (failed_attempt now AttemptStatus.failed
                    (some (now + retry_countdown a.attempt_no)) result a)
                  (next_attempt now key a) f.1 f.2 f.2
                  (record { same_application = refl; lock_grows = omega arith }) f.0 refl more
                  (unfold failed_attempt in refl)
                  (unfold failed_attempt in record { same_offer = refl; same_number = refl })
                  (unfold next_attempt in refl) (unfold next_attempt in refl)
                  (unfold next_attempt in refl) g.0))
        | inr (x, w) ↦ rw w h
      ]

  finish_owned-IsReached :
      (now id next_id : ℕ) (key : Text) (result : MailSendResult) (held : OfferSendAttempt)
      (mine : Option (OfferSendAttempt × Offer)) (db : Db)
      → owned id held db ≡ mine
      → IsReached base db
      → IsReached base (committed db (finish_owned now id next_id key result held mine db))
  unfolding finish_owned
  finish_owned-IsReached now id next_id key result held none db e h = h
  finish_owned-IsReached now id next_id key result held (some (a, o)) db e h =
      elim (Bool-cases result.success) [
        | inl s ↦ simp s (finish_sent-IsReached now id held a o db e h)
        | inr s ↦ elim (Bool-cases (ltb a.attempt_no mail_max_auto_attempts)) [
          | inl more ↦
              simp (s, more)
                (finish_retry-IsReached now id next_id key result held a o db e (ground arith) h)
          | inr last ↦ simp (s, last) (finish_dead-IsReached now id result held a o db e h)
        ]
      ]

  -- The last phase only makes moves, however the send went.
  pub finish-IsReached :
      (now id next_id : ℕ) (key : Text) (result : MailSendResult) (held : OfferSendAttempt)
      (db : Db)
      → IsReached base db
      → IsReached base (committed db (finish now id next_id key result held db))
  unfolding finish
  finish-IsReached now id next_id key result held db h =
      finish_owned-IsReached now id next_id key result held (owned id held db) db refl h

  bury_orphan-IsReached :
      (now id : ℕ) (held a : OfferSendAttempt) (db : Db)
      → lookup id db.send_attempts ≡ some a
      → lookup a.offer_id db.offers ≡ none
      → IsReached base db
      → IsReached base (committed db (bury_orphan now id held (some a) db))
  unfolding IsReached bury_orphan
  bury_orphan-IsReached now id held a db e n h = elim (Bool-cases (is_running held.status)) [
    | inl r ↦ rw r (
        then h (
          orphan db.offers db.send_attempts id a
            (dead_attempt now (codes "offer_missing") (codes "offer missing") a) e n refl
            (record { same_offer = refl; same_number = refl })))
    | inr r ↦ rw r h
  ]

  bury_unversioned-IsReached :
      (now id : ℕ) (held : OfferSendAttempt) (mine : Option (OfferSendAttempt × Offer)) (db : Db)
      → owned id held db ≡ mine
      → IsReached base db
      → IsReached base (committed db (bury_unversioned now id mine db))
  unfolding IsReached bury_unversioned
  bury_unversioned-IsReached now id held none db e h = h
  bury_unversioned-IsReached now id held (some (a, o)) db e h =
      let f = owned-ok id held db a o e in
      then h (
        settle db.offers db.send_attempts a.offer_id id o
          (record o { status = OfferStatus.failed; updated_at = now }) a
          (dead_attempt now (codes "version_missing") (codes "version missing") a) f.1 f.2
          (record { same_application = refl; lock_grows = omega arith }) f.0 refl
          (record { same_offer = refl; same_number = refl }) (inl (refl, refl)))

  open_version-IsReached :
      (now id : ℕ) (held : OfferSendAttempt) (v : Option OfferVersion) (db : Db)
      → IsReached base db
      → IsReached base (committed db (open_version now id held v db))
  unfolding open_version
  open_version-IsReached now id held (some v) db h = h
  open_version-IsReached now id held none db h =
      bury_unversioned-IsReached now id held (owned id held db) db refl h

  open_offer-IsReached :
      (now id : ℕ) (a row : OfferSendAttempt) (found : Option Offer) (db : Db)
      → lookup id db.send_attempts ≡ some row
      → row.offer_id ≡ a.offer_id
      → lookup a.offer_id db.offers ≡ found
      → IsReached base db
      → IsReached base (committed db (open_offer now id a found db))
  unfolding open_offer
  open_offer-IsReached now id a row none db e i n h =
      rw e (bury_orphan-IsReached now id a row db e (rw i n) h)
  open_offer-IsReached now id a row (some o) db e i n h = elim (Bool-cases (is_sending o.status)) [
    | inl s ↦
        rw s (open_version-IsReached now id a (lookup a.offer_version_id db.offer_versions) db h)
    | inr s ↦ rw s h
  ]

  -- The phase before the provider's call only makes moves.
  pub open_claim-IsReached :
      (now id : ℕ) (a row : OfferSendAttempt) (db : Db)
      → lookup id db.send_attempts ≡ some row
      → row.offer_id ≡ a.offer_id
      → IsReached base db
      → IsReached base (committed db (open_claim now id a db))
  unfolding open_claim
  open_claim-IsReached now id a row db e i h =
      open_offer-IsReached now id a row (lookup a.offer_id db.offers) db e i refl h
