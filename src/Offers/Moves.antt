-- ===== src/Offers/Moves.antt =====
-- An abstract description of how offers and send attempts may change: the edges of an offer's
-- status, and the moves that the services of backend/app/services/offers.py and the worker of
-- backend/app/workers/mail_tasks.py may make on the two tables.
use ai_recruitment.Common.{ℕ, ◌+◌, ◌≤◌, ◌<◌, ◌≡◌, ◌⊎◌, none, some}
use ai_recruitment.Common.Table.{Table, lookup, put, count}
use ai_recruitment.Models.{
  Db, Offer, OfferStatus, OfferSendAttempt, AttemptStatus, mail_max_auto_attempts,
}
use ai_recruitment.Offers.Store.{active_for}

-- The changes of status that come with no send attempt.
pub data Edge : OfferStatus → OfferStatus → Type 0 where
  redraft : Edge OfferStatus.draft OfferStatus.draft
  revise : Edge OfferStatus.ready OfferStatus.draft
  approve : Edge OfferStatus.draft OfferStatus.ready
  void_draft : Edge OfferStatus.draft OfferStatus.voided
  void_ready : Edge OfferStatus.ready OfferStatus.voided
  void_failed : Edge OfferStatus.failed OfferStatus.voided

-- The same offer, later.
pub record Follows (o o' : Offer) : Type 0 where
  pub same_application : o'.application_id ≡ o.application_id
  pub lock_grows : o.lock_version ≤ o'.lock_version

-- The same attempt, later.
pub record Continues (a a' : OfferSendAttempt) : Type 0 where
  pub same_offer : a'.offer_id ≡ a.offer_id
  pub same_number : a'.attempt_no ≡ a.attempt_no

pub data Move
    : Table Offer → Table OfferSendAttempt → Table Offer → Table OfferSendAttempt → Type 0 where
  create :
      (t : Table Offer) (u : Table OfferSendAttempt) (k : ℕ) (o : Offer)
      → lookup k t ≡ none
      → o.status ≡ OfferStatus.draft
      → count (active_for o.application_id) t ≡ 0
      → Move t u (put k o t) u
  edit :
      (t : Table Offer) (u : Table OfferSendAttempt) (k : ℕ) (o o' : Offer)
      → lookup k t ≡ some o
      → Edge o.status o'.status
      → Follows o o'
      → Move t u (put k o' t) u
  send :
      (t : Table Offer) (u : Table OfferSendAttempt) (k id : ℕ) (o o' : Offer)
      (a : OfferSendAttempt)
      → lookup k t ≡ some o
      → (o.status ≡ OfferStatus.ready) ⊎ (o.status ≡ OfferStatus.failed)
      → o'.status ≡ OfferStatus.sending
      → Follows o o'
      → lookup id u ≡ none
      → a.offer_id ≡ k
      → a.status ≡ AttemptStatus.pending
      → a.attempt_no ≡ 1
      → Move t u (put k o' t) (put id a u)
  claim :
      (t : Table Offer) (u : Table OfferSendAttempt) (id : ℕ) (a a' : OfferSendAttempt)
      → lookup id u ≡ some a
      → a.status ≡ AttemptStatus.pending
      → a'.status ≡ AttemptStatus.running
      → Continues a a'
      → Move t u t (put id a' u)
  -- The attempt of a worker or a reclaim ends with its offer. A worker that comes late may find
  -- its attempt already ended.
  settle :
      (t : Table Offer) (u : Table OfferSendAttempt) (k id : ℕ) (o o' : Offer)
      (a a' : OfferSendAttempt)
      → lookup k t ≡ some o
      → o.status ≡ OfferStatus.sending
      → Follows o o'
      → lookup id u ≡ some a
      → a.offer_id ≡ k
      → Continues a a'
      → ((o'.status ≡ OfferStatus.failed) × (a'.status ≡ AttemptStatus.dead))
        ⊎ ((o'.status ≡ OfferStatus.sent) × (a'.status ≡ AttemptStatus.succeeded))
      → Move t u (put k o' t) (put id a' u)
  orphan :
      (t : Table Offer) (u : Table OfferSendAttempt) (id : ℕ) (a a' : OfferSendAttempt)
      → lookup id u ≡ some a
      → lookup a.offer_id t ≡ none
      → a'.status ≡ AttemptStatus.dead
      → Continues a a'
      → Move t u t (put id a' u)
  again :
      (t : Table Offer) (u : Table OfferSendAttempt) (k id next : ℕ) (o o' : Offer)
      (a a' b : OfferSendAttempt)
      → lookup k t ≡ some o
      → o.status ≡ OfferStatus.sending
      → o'.status ≡ OfferStatus.sending
      → Follows o o'
      → lookup id u ≡ some a
      → a.offer_id ≡ k
      → a.attempt_no < mail_max_auto_attempts
      → a'.status ≡ AttemptStatus.failed
      → Continues a a'
      → b.status ≡ AttemptStatus.pending
      → b.offer_id ≡ a.offer_id
      → b.attempt_no ≡ a.attempt_no + 1
      → lookup next (put id a' u) ≡ none
      → Move t u (put k o' t) (put next b (put id a' u))

-- What a sequence of moves makes of the tables `t₀` and `u₀`.
pub data Reached (t₀ : Table Offer) (u₀ : Table OfferSendAttempt)
    : Table Offer → Table OfferSendAttempt → Type 0 where
  here : Reached t₀ u₀ t₀ u₀
  then :
      {t t' : Table Offer} {u u' : Table OfferSendAttempt}
      → Reached t₀ u₀ t u
      → Move t u t' u'
      → Reached t₀ u₀ t' u'

-- The database `db` comes from `s` by moves of its offers and attempts.
unfoldable pub IsReached : Db → Db → Type 0
IsReached s db = Reached s.offers s.send_attempts db.offers db.send_attempts
