-- ===== src/Offers/Promises.antt =====
-- What single calls of backend/app/services/offers.py promise their callers: repeated requests do
-- nothing again, and stale lock versions are turned down.
use ai_recruitment.Common.{
  ℕ, ◌<◌, ◌≡◌, refl, inl, inr, Bool, true, false, Option, none, some, Option-cases, Bool-cases,
  Result-cases, ok, err, arith,
}
use ai_recruitment.Common.Text.{Text, is_empty, strip, text_eq_iff}
use ai_recruitment.Common.Table.{lookup, put, lookup-put_self, find_row-put_new}
use ai_recruitment.Models.{Db, Offer, OfferVersion, OfferSendAttempt, AuditAction}
use ai_recruitment.Offers.Base.{External, Request, OfferResult, lock_conflict, consume_idempotency}
use ai_recruitment.Offers.Store.{find_attempt_by_key, same_attempt_key}
use ai_recruitment.Offers.Drafts.{locked_offer}
use ai_recruitment.Offers.Edits.{
  edited_offer, editable, update_after, update_offer_draft, readyable, ready_after,
  mark_offer_ready, voidable, void_after, void_offer,
}
use ai_recruitment.Offers.Edits.Effects.{editable-ok, write_edit-ok}
use ai_recruitment.Offers.Sending.{
  OfferSendResult, replay, sendable, write_sending, first_attempt, sending_offer, confirm_after,
  confirm_offer_send,
}
use ai_recruitment.Offers.Sending.Effects.{replay-ok, sendable-ok, write_sending-ok}

-- A lock version that is not the offer's is turned down before anything else happens.
locked_offer-stale :
    (offer_id lock_version : ℕ) (o : Offer) (db : Db)
    → lookup offer_id db.offers ≡ some o
    → lock_version < o.lock_version
    → locked_offer offer_id lock_version db ≡ err lock_conflict
unfolding locked_offer
locked_offer-stale offer_id lock_version o db e h = ground arith

-- An update without a key found the offer under the lock version that it expects.
update-ok :
    (x : External) (c : Request) (offer_id vid lock_version : ℕ) (s h t : Text) (db : Db)
    (r : OfferResult × Db)
    → update_offer_draft x c offer_id vid s h t lock_version none db ≡ ok r
    → (o : Offer) × (o.lock_version ≡ lock_version)
      × (lookup offer_id r.1.offers ≡ some (edited_offer c vid o))
unfolding update_offer_draft update_after consume_idempotency
update-ok x c offer_id vid lock_version s h t db r e =
    elim (Result-cases (editable offer_id lock_version db)) [
      | inl (p, w) ↦ (
        p.0,
        (editable-ok offer_id lock_version db p.1 p.0 w).2,
        ground (
          arith,
          write_edit-ok x c offer_id vid s h t lock_version none p.0 p.1 r.1 r.0,
          lookup-put_self offer_id (edited_offer c vid p.0) p.1.offers,
        ),
      )
      | inr (y, w) ↦ ground (arith, w, e)
    ]

module _ (x : External) (c : Request) (offer_id lock_version : ℕ) (o : Offer) (db : Db)
    (found : lookup offer_id db.offers ≡ some o) (stale : lock_version < o.lock_version) where
  update-locked :
      (vid : ℕ) (s h t : Text)
      → update_offer_draft x c offer_id vid s h t lock_version none db ≡ err lock_conflict
  unfolding update_offer_draft update_after consume_idempotency editable
  update-locked vid s h t =
      ground (arith, locked_offer-stale offer_id lock_version o db found stale)

  ready-locked : mark_offer_ready x c offer_id lock_version none db ≡ err lock_conflict
  unfolding mark_offer_ready ready_after consume_idempotency readyable
  ready-locked = ground (arith, locked_offer-stale offer_id lock_version o db found stale)

  void-locked :
      (reason : Text)
      → is_empty (strip reason) ≡ false
      → void_offer x c offer_id reason lock_version none db ≡ err lock_conflict
  unfolding void_offer void_after consume_idempotency voidable
  void-locked reason b = ground (arith, locked_offer-stale offer_id lock_version o db found stale)

edited_offer-lock :
    (c : Request) (vid : ℕ) (o : Offer) → o.lock_version < (edited_offer c vid o).lock_version
unfolding edited_offer
edited_offer-lock c vid o = omega arith

-- After an update that carries no idempotency key, every further update, approval or voiding (with
-- a reason that is not blank) that still expects the old lock version, and carries no key, raises
-- the lock conflict.
pub update-stale :
    (x : External) (c c' : Request) (offer_id vid vid' lock_version : ℕ)
    (s h t s' h' t' reason : Text) (db : Db) (r : OfferResult × Db)
    → update_offer_draft x c offer_id vid s h t lock_version none db ≡ ok r
    → is_empty (strip reason) ≡ false
    → (update_offer_draft x c' offer_id vid' s' h' t' lock_version none r.1 ≡ err lock_conflict)
      × (mark_offer_ready x c' offer_id lock_version none r.1 ≡ err lock_conflict)
      × (void_offer x c' offer_id reason lock_version none r.1 ≡ err lock_conflict)
update-stale x c c' offer_id vid vid' lock_version s h t s' h' t' reason db r e b =
    let (o, l, f) = update-ok x c offer_id vid lock_version s h t db r e in
    let o' = edited_offer c vid o in
    let q : lock_version < o'.lock_version = ground (arith, edited_offer-lock c vid o, l) in
    (
      update-locked x c' offer_id lock_version o' r.1 f q vid' s' h' t',
      ready-locked x c' offer_id lock_version o' r.1 f q,
      void-locked x c' offer_id lock_version o' r.1 f q reason b,
    )

replay-found :
    (offer_id id : ℕ) (a : OfferSendAttempt) (db : Db) (r : OfferSendResult × Db)
    → replay offer_id (id, a) db ≡ ok r
    → ((o : Offer) × (lookup offer_id db.offers ≡ some o)) × (r.0.attempt_id ≡ id)
unfolding replay
replay-found offer_id id a db r e = elim (Option-cases (lookup offer_id db.offers)) [
  | inl n ↦ ground (arith, n, e)
  | inr (o, w) ↦ ((o, w), ground (arith, w, e))
]

-- A replay succeeds as long as the offer exists.
replay-returns :
    (offer_id id : ℕ) (a : OfferSendAttempt) (o : Offer) (db : Db)
    → lookup offer_id db.offers ≡ some o
    → (r : OfferSendResult × Db) × (replay offer_id (id, a) db ≡ ok r)
unfolding replay
replay-returns offer_id id a o db e = elim (Result-cases (replay offer_id (id, a) db)) [
  | inl (r, w) ↦ (r, w)
  | inr (y, w) ↦ ground (arith, e, w)
]

write_sending-attempt :
    (c : Request) (action : AuditAction) (freeze : Bool) (offer_id attempt_id : ℕ) (key : Text)
    (p : Offer × ℕ × OfferVersion) (db : Db) (r : OfferSendResult × Db)
    → write_sending c action freeze offer_id attempt_id key p db ≡ ok r
    → r.0.attempt_id ≡ attempt_id
unfolding write_sending
write_sending-attempt c action freeze offer_id attempt_id key p db r e = ground arith

new_attempt-found :
    (c : Request) (offer_id vid attempt_id : ℕ) (key : Text) (db db' : Db)
    → find_attempt_by_key offer_id key db ≡ none
    → lookup attempt_id db.send_attempts ≡ none
    → db'.send_attempts ≡ put attempt_id (first_attempt c offer_id vid key) db.send_attempts
    → find_attempt_by_key offer_id key db' ≡ some (attempt_id, first_attempt c offer_id vid key)
unfolding find_attempt_by_key same_attempt_key first_attempt
new_attempt-found c offer_id vid attempt_id key db db' f n e = ground (
  arith,
  e,
  (text_eq_iff key key).1,
  find_row-put_new (same_attempt_key offer_id key) attempt_id (first_attempt c offer_id vid key)
      db.send_attempts n f,
)

first_confirm-ok :
    (c : Request) (action : AuditAction) (freeze : Bool) (offer_id attempt_id : ℕ) (key : Text)
    (o : Offer) (vid : ℕ) (v : OfferVersion) (db : Db) (r : OfferSendResult × Db)
    → find_attempt_by_key offer_id key db ≡ none
    → write_sending c action freeze offer_id attempt_id key (o, vid, v) db ≡ ok r
    → (a : OfferSendAttempt) × (o' : Offer) × (find_attempt_by_key offer_id key r.1
        ≡ some (r.0.attempt_id, a))
      × (lookup offer_id r.1.offers ≡ some o')
first_confirm-ok c action freeze offer_id attempt_id key o vid v db r f e =
    let (n, p, q) = write_sending-ok c action freeze offer_id attempt_id key o vid v db r.1 r.0 e in
    (
      first_attempt c offer_id vid key,
      sending_offer c o,
      rw (write_sending-attempt c action freeze offer_id attempt_id key (o, vid, v) db r e)
          (new_attempt-found c offer_id vid attempt_id key db r.1 f n q),
      rw p (lookup-put_self offer_id (sending_offer c o) db.offers),
    )

-- A confirmation that commits leaves its attempt under its key, and the offer in place.
confirm_after-ok :
    (c : Request) (offer_id vid lock attempt_id : ℕ) (key : Text)
    (found : Option (ℕ × OfferSendAttempt)) (db : Db) (r : OfferSendResult × Db)
    → find_attempt_by_key offer_id key db ≡ found
    → confirm_after c offer_id vid lock attempt_id key found db ≡ ok r
    → (a : OfferSendAttempt) × (o : Offer) × (find_attempt_by_key offer_id key r.1
        ≡ some (r.0.attempt_id, a))
      × (lookup offer_id r.1.offers ≡ some o)
unfolding confirm_after
confirm_after-ok c offer_id vid lock attempt_id key (some (id, a)) db r f e =
    let ((o, w), i) = replay-found offer_id id a db r e in
    let (p, q) = replay-ok offer_id id a db r.1 r.0 e in
    (a, o, unfold find_attempt_by_key in ground (arith, f, i, q), ground (arith, w, p))
confirm_after-ok c offer_id vid lock attempt_id key none db r f e =
    elim (Result-cases (sendable offer_id vid lock db)) [
      | inl (((o, pv, v), db'), w) ↦
          first_confirm-ok c AuditAction.offer_send_confirmed true offer_id attempt_id key o pv v db
            r f (ground (arith, w, e, sendable-ok offer_id vid lock db db' o pv v w))
      | inr (y, w) ↦ ground (arith, w, e)
    ]

-- A second confirmation with the same key succeeds whatever else it asks for, returns the attempt of
-- the first, and changes neither offers nor attempts.
pub confirm-repeat :
    (c c' : Request) (offer_id vid vid' lock lock' attempt_id attempt_id' : ℕ) (key : Text)
    (db : Db) (r : OfferSendResult × Db)
    → confirm_offer_send c offer_id vid lock attempt_id key db ≡ ok r
    → (r' : OfferSendResult × Db) × (confirm_offer_send c' offer_id vid' lock' attempt_id' key r.1
        ≡ ok r')
      × (r'.0.attempt_id ≡ r.0.attempt_id)
      × (r'.1.offers ≡ r.1.offers)
      × (r'.1.send_attempts ≡ r.1.send_attempts)
unfolding confirm_offer_send confirm_after
confirm-repeat c c' offer_id vid vid' lock lock' attempt_id attempt_id' key db r e =
    elim (Bool-cases (is_empty (strip key))) [
      | inl b ↦ ground (arith, b, e)
      | inr b ↦
          let (a, o, f, w) =
            confirm_after-ok c offer_id vid lock attempt_id key
              (find_attempt_by_key offer_id key db) db r refl (ground (arith, b, e)) in
          let (r', q) = replay-returns offer_id r.0.attempt_id a o r.1 w in
          let same = replay-ok offer_id r.0.attempt_id a r.1 r'.1 r'.0 q in
          (r', rw (b, f) q, (replay-found offer_id r.0.attempt_id a r.1 r' q).1, same.0, same.1)
    ]
