-- ===== src/Offers/Edits/Steps.antt =====
-- Editing, readying and voiding (backend/app/services/offers.py) only make the moves of
-- Offers/Moves.antt.
use ai_recruitment.Common.{
  ℕ, ◌≡◌, refl, ◌⊎◌, inl, inr, Option, none, some, arith, ok, err, Bool-cases, Option-cases,
}
use ai_recruitment.Common.Text.{Text, is_empty, strip}
use ai_recruitment.Common.Table.{lookup}
use ai_recruitment.Models.{Db, Offer, OfferStatus, IdempotencyKey, IdempotentAction}
use ai_recruitment.Offers.Base.{
  External, Request, Payload, Handler, OfferResult, committed, committed-ok, committed-bind,
  consume_idempotency,
}
use ai_recruitment.Offers.Drafts.{current_result}
use ai_recruitment.Offers.Drafts.Quiet.{consume_idempotency-ok}
use ai_recruitment.Offers.Edits.{
  editable, edited_offer, write_edit, update_after, update_offer_draft, readyable, ready_offer,
  write_ready, ready_after, mark_offer_ready, voidable, voided_offer, write_void, void_after,
  void_offer,
}
use ai_recruitment.Offers.Edits.Effects.{
  editable-ok, write_edit-ok, readyable-ok, write_ready-ok, voidable-ok, write_void-ok,
}
use ai_recruitment.Offers.Moves.{IsReached, then, Edge, edit}

edited-Edge :
    (c : Request) (version_id : ℕ) (o : Offer)
    → (o.status ≡ OfferStatus.draft) ⊎ (o.status ≡ OfferStatus.ready)
    → Edge o.status (edited_offer c version_id o).status
unfolding edited_offer
edited-Edge c version_id o (inl d) = rw d Edge.redraft
edited-Edge c version_id o (inr r) = rw r Edge.revise

voided-Edge :
    (c : Request) (reason : Text) (o : Offer)
    → (o.status ≡ OfferStatus.draft)
      ⊎ (o.status ≡ OfferStatus.ready)
      ⊎ (o.status ≡ OfferStatus.failed)
    → Edge o.status (voided_offer c reason o).status
unfolding voided_offer
voided-Edge c reason o (inl d) = rw d Edge.void_draft
voided-Edge c reason o (inr (inl r)) = rw r Edge.void_ready
voided-Edge c reason o (inr (inr f)) = rw f Edge.void_failed

-- From any database `base`.
module _ (base : Db) where
  -- A repeated request reads only.
  current_result-IsReached :
      (offer_id : ℕ) (db : Db)
      → IsReached base db
      → IsReached base (committed db (current_result offer_id db))
  unfolding current_result
  current_result-IsReached offer_id db h = elim (Option-cases (lookup offer_id db.offers)) [
    | inl e ↦ rw e h
    | inr (o, e) ↦ rw e h
  ]

  -- After the check of the idempotency key, a call is its two continuations.
  pub after_consume-IsReached :
      (x : External) (c : Request) (action : IdempotentAction) (scope : ℕ) (key : Option Text)
      (payload : Payload) (f : Option IdempotencyKey → Handler OfferResult) (db : Db)
      → ((r : Option IdempotencyKey) → IsReached base (committed db (f r db)))
      → IsReached base db
      → IsReached base (
          committed db (elim (consume_idempotency x c action scope key payload db) [
            | ok r ↦ f r.0 r.1
            | err e ↦ err e
          ]))
  after_consume-IsReached x c action scope key payload f db step h =
      committed-bind (IsReached base) (consume_idempotency x c action scope key payload) f db
        (λ r db' e. rw (consume_idempotency-ok x c action scope key payload db (r, db') e) (step r))
        h

  update_after-IsReached :
      (x : External) (c : Request) (offer_id version_id : ℕ) (subject body_html body_text : Text)
      (lock_version : ℕ) (key : Option Text) (reused : Option IdempotencyKey) (db : Db)
      → IsReached base db
      → IsReached base (
          committed db (
            update_after x c offer_id version_id subject body_html body_text lock_version key reused
              db))
  unfolding update_after
  update_after-IsReached x c offer_id version_id subject body_html body_text lock_version key
        (some r) db h =
      current_result-IsReached offer_id db h
  update_after-IsReached x c offer_id version_id subject body_html body_text lock_version key none
        db h =
      committed-bind (IsReached base) (editable offer_id lock_version)
        (write_edit x c offer_id version_id subject body_html body_text lock_version key) db
        (λ o db' e.
          let f = editable-ok offer_id lock_version db db' o e in
          rw (f.0) (
            committed-ok (IsReached base)
              (write_edit x c offer_id version_id subject body_html body_text lock_version key o db)
              db
              (λ r w.
                let g =
                  write_edit-ok x c offer_id version_id subject body_html body_text lock_version key
                    o db r.1 r.0 w in
                unfold IsReached in
                rw (g.0, g.1)
                  (then h (
                    edit db.offers db.send_attempts offer_id o (edited_offer c version_id o) f.1
                      (edited-Edge c version_id o f.3)
                      (unfold edited_offer in
                        record { same_application = refl; lock_grows = omega arith }))))
              h))
        h

  -- Editing only makes moves.
  pub update_offer_draft-IsReached :
      (x : External) (c : Request) (offer_id version_id : ℕ) (subject body_html body_text : Text)
      (lock_version : ℕ) (key : Option Text) (db : Db)
      → IsReached base db
      → IsReached base (
          committed db (
            update_offer_draft x c offer_id version_id subject body_html body_text lock_version key
              db))
  unfolding update_offer_draft
  update_offer_draft-IsReached x c offer_id version_id subject body_html body_text lock_version key
        db h =
      after_consume-IsReached x c IdempotentAction.offer_update offer_id key
        (Payload.update_payload offer_id lock_version (x.content_hash subject body_html body_text)
          key)
        (update_after x c offer_id version_id subject body_html body_text lock_version key) db
        (λ r.
          update_after-IsReached x c offer_id version_id subject body_html body_text lock_version
            key r db h)
        h

  ready_after-IsReached :
      (x : External) (c : Request) (offer_id lock_version : ℕ) (key : Option Text)
      (reused : Option IdempotencyKey) (db : Db)
      → IsReached base db
      → IsReached base (committed db (ready_after x c offer_id lock_version key reused db))
  unfolding ready_after
  ready_after-IsReached x c offer_id lock_version key (some r) db h =
      current_result-IsReached offer_id db h
  ready_after-IsReached x c offer_id lock_version key none db h =
      committed-bind (IsReached base) (readyable x offer_id lock_version)
        (write_ready x c offer_id lock_version key) db
        (λ p db' e.
          let f = readyable-ok x offer_id lock_version db db' p e in
          rw (f.0) (
            committed-ok (IsReached base) (write_ready x c offer_id lock_version key p db) db
              (λ r w.
                let g = write_ready-ok x c offer_id lock_version key p db r.1 r.0 w in
                unfold IsReached in
                rw (g.0, g.1)
                  (then h (
                    edit db.offers db.send_attempts offer_id p.0 (ready_offer c p.0) f.1
                      (rw (f.3) (unfold ready_offer in Edge.approve))
                      (unfold ready_offer in
                        record { same_application = refl; lock_grows = omega arith }))))
              h))
        h

  -- Marking ready only makes moves.
  pub mark_offer_ready-IsReached :
      (x : External) (c : Request) (offer_id lock_version : ℕ) (key : Option Text) (db : Db)
      → IsReached base db
      → IsReached base (committed db (mark_offer_ready x c offer_id lock_version key db))
  unfolding mark_offer_ready
  mark_offer_ready-IsReached x c offer_id lock_version key db h =
      after_consume-IsReached x c IdempotentAction.offer_ready offer_id key
        (Payload.ready_payload offer_id lock_version key)
        (ready_after x c offer_id lock_version key) db
        (λ r. ready_after-IsReached x c offer_id lock_version key r db h) h

  void_after-IsReached :
      (x : External) (c : Request) (offer_id : ℕ) (reason : Text) (lock_version : ℕ)
      (key : Option Text) (reused : Option IdempotencyKey) (db : Db)
      → IsReached base db
      → IsReached base (committed db (void_after x c offer_id reason lock_version key reused db))
  unfolding void_after
  void_after-IsReached x c offer_id reason lock_version key (some r) db h =
      current_result-IsReached offer_id db h
  void_after-IsReached x c offer_id reason lock_version key none db h =
      committed-bind (IsReached base) (voidable offer_id lock_version)
        (write_void x c offer_id reason lock_version key) db
        (λ o db' e.
          let f = voidable-ok offer_id lock_version db db' o e in
          rw (f.0) (
            committed-ok (IsReached base) (write_void x c offer_id reason lock_version key o db) db
              (λ r w.
                let g = write_void-ok x c offer_id reason lock_version key o db r.1 r.0 w in
                unfold IsReached in
                rw (g.0, g.1)
                  (then h (
                    edit db.offers db.send_attempts offer_id o (voided_offer c reason o) f.1
                      (voided-Edge c reason o f.3)
                      (unfold voided_offer in
                        record { same_application = refl; lock_grows = omega arith }))))
              h))
        h

  -- Voiding only makes moves.
  pub void_offer-IsReached :
      (x : External) (c : Request) (offer_id : ℕ) (reason : Text) (lock_version : ℕ)
      (key : Option Text) (db : Db)
      → IsReached base db
      → IsReached base (committed db (void_offer x c offer_id reason lock_version key db))
  unfolding void_offer
  void_offer-IsReached x c offer_id reason lock_version key db h =
      elim (Bool-cases (is_empty (strip reason))) [
        | inl e ↦ rw e h
        | inr e ↦ rw e (
            after_consume-IsReached x c IdempotentAction.offer_void offer_id key
              (Payload.void_payload offer_id lock_version reason key)
              (void_after x c offer_id reason lock_version key) db
              (λ r. void_after-IsReached x c offer_id reason lock_version key r db h) h)
      ]
