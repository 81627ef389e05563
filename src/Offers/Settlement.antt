-- ===== src/Offers/Settlement.antt =====
-- The invariant that ties an offer's status to its send attempts: a `sending` offer has an attempt
-- that is pending or running, and an offer is `sent` exactly when one has succeeded.
use ai_recruitment.Common.{
  ℕ, ◌≤◌, ◌≡◌, refl, ◌⊎◌, ◌∙◌, Bool, false, ◌&&◌, ◌||◌, Option, none, some, arith, ◌==◌, bit,
}
use ai_recruitment.Common.Table.{
  Table, lookup, put, count, lookup-put, count-put, count-put_new, count_pos,
}
use ai_recruitment.Offers.Moves.{
  Edge, Move, Reached, here, then, create, edit, send, claim, settle, again, orphan,
}
use ai_recruitment.Models.{
  Offer, OfferStatus, OfferSendAttempt, AttemptStatus, is_sending, is_sent, is_pending, is_running,
  is_succeeded,
}

-- An attempt of offer `k` that is pending or running.
abbrev pub live_of : ℕ → OfferSendAttempt → Bool
live_of k a = a.offer_id == k && (is_pending a.status || is_running a.status)

-- An attempt of offer `k` that has succeeded.
abbrev pub done_of : ℕ → OfferSendAttempt → Bool
done_of k a = a.offer_id == k && is_succeeded a.status

abbrev pub sending_of : Option Offer → ℕ
sending_of none = 0
sending_of (some o) = bit (is_sending o.status)

abbrev pub sent_of : Option Offer → ℕ
sent_of none = 0
sent_of (some o) = bit (is_sent o.status)

abbrev pub Settled : Table Offer → Table OfferSendAttempt → Type 0
Settled offers attempts =
    (k : ℕ)
    → (sending_of (lookup k offers) ≤ count (live_of k) attempts)
      × (count (done_of k) attempts ≡ sent_of (lookup k offers))

module _ (k : ℕ) (t : Table Offer) (u : Table OfferSendAttempt) (h : Settled t u) where
  -- An offer changes without entering or leaving `sending` or `sent`.
  keep_offer-Settled :
      (o o' : Offer)
      → lookup k t ≡ some o
      → is_sending o'.status ≡ is_sending o.status
      → is_sent o'.status ≡ is_sent o.status
      → Settled (put k o' t) u
  keep_offer-Settled o o' e p q = λ j. ground (arith, h j, lookup-put j k o' t)

  new_offer-Settled :
      (o : Offer) → lookup k t ≡ none → o.status ≡ OfferStatus.draft → Settled (put k o t) u
  new_offer-Settled o e p = λ j. ground (arith, h j, lookup-put j k o t)

  module _ (id : ℕ) where
    -- A send begins: the offer enters `sending` with a new pending attempt.
    start-Settled :
        (o o' : Offer) (a : OfferSendAttempt)
        → lookup k t ≡ some o
        → is_sending o.status ≡ false
        → is_sent o.status ≡ false
        → o'.status ≡ OfferStatus.sending
        → lookup id u ≡ none
        → a.offer_id ≡ k
        → a.status ≡ AttemptStatus.pending
        → Settled (put k o' t) (put id a u)
    start-Settled o o' a e n m s f i p = λ j. ground (
      arith,
      h j,
      lookup-put j k o' t,
      count-put_new (live_of j) id a u f,
      count-put_new (done_of j) id a u f,
    )

    -- An attempt ends together with the offer.
    stop-Settled :
        (o o' : Offer) (a a' : OfferSendAttempt)
        → lookup k t ≡ some o
        → o.status ≡ OfferStatus.sending
        → lookup id u ≡ some a
        → a.offer_id ≡ k
        → a'.offer_id ≡ k
        → ((o'.status ≡ OfferStatus.failed) × (a'.status ≡ AttemptStatus.dead))
          ⊎ ((o'.status ≡ OfferStatus.sent) × (a'.status ≡ AttemptStatus.succeeded))
        → Settled (put k o' t) (put id a' u)
    stop-Settled o o' a a' e s f i i' d = λ j. ground (
      arith,
      h j,
      lookup-put j k o' t,
      count-put (live_of j) id a' a u f,
      count-put (done_of j) id a' a u f,
      count_pos (done_of j) id a u f,
    )

    -- A pending attempt is claimed.
    claim-Settled :
        (a a' : OfferSendAttempt)
        → lookup id u ≡ some a
        → a.status ≡ AttemptStatus.pending
        → a'.status ≡ AttemptStatus.running
        → a'.offer_id ≡ a.offer_id
        → Settled t (put id a' u)
    claim-Settled a a' f p r i = λ j.
        ground (arith, h j, count-put (live_of j) id a' a u f, count-put (done_of j) id a' a u f)

    -- An attempt fails and another pending one takes its place.
    again-Settled :
        (o o' : Offer) (a a' b : OfferSendAttempt) (next : ℕ)
        → lookup k t ≡ some o
        → o.status ≡ OfferStatus.sending
        → o'.status ≡ OfferStatus.sending
        → lookup id u ≡ some a
        → a.offer_id ≡ k
        → a'.status ≡ AttemptStatus.failed
        → b.status ≡ AttemptStatus.pending
        → a'.offer_id ≡ a.offer_id
        → b.offer_id ≡ a.offer_id
        → lookup next (put id a' u) ≡ none
        → Settled (put k o' t) (put next b (put id a' u))
    again-Settled o o' a a' b next e s n f i₀ r' p i i' fresh = λ j. ground (
      arith,
      h j,
      lookup-put j k o' t,
      count-put (live_of j) id a' a u f,
      count-put (done_of j) id a' a u f,
      count_pos (done_of j) id a u f,
      count-put_new (live_of j) next b (put id a' u) fresh,
      count-put_new (done_of j) next b (put id a' u) fresh,
    )

Edge-quiet :
    {s s' : OfferStatus} → Edge s s' → (is_sending s' ≡ is_sending s) × (is_sent s' ≡ is_sent s)
Edge-quiet Edge.redraft = (refl, refl)
Edge-quiet Edge.revise = (refl, refl)
Edge-quiet Edge.approve = (refl, refl)
Edge-quiet Edge.void_draft = (refl, refl)
Edge-quiet Edge.void_ready = (refl, refl)
Edge-quiet Edge.void_failed = (refl, refl)

-- An attempt without an offer ends.
orphan-Settled :
    (t : Table Offer) (u : Table OfferSendAttempt) (id : ℕ) (a a' : OfferSendAttempt)
    → lookup id u ≡ some a
    → lookup a.offer_id t ≡ none
    → a'.offer_id ≡ a.offer_id
    → a'.status ≡ AttemptStatus.dead
    → Settled t u
    → Settled t (put id a' u)
orphan-Settled t u id a a' f n i d h = λ j. ground (
  arith,
  h j,
  n,
  count-put (live_of j) id a' a u f,
  count-put (done_of j) id a' a u f,
  count_pos (done_of j) id a u f,
)

-- One move keeps offers and attempts settled.
pub Move-Settled :
    {t t' : Table Offer} {u u' : Table OfferSendAttempt}
    → Move t u t' u'
    → Settled t u
    → Settled t' u'
Move-Settled (create t u k o e d free) h = new_offer-Settled k t u h o e d
Move-Settled (edit t u k o o' e g f) h =
    keep_offer-Settled k t u h o o' e (Edge-quiet g).0 (Edge-quiet g).1
Move-Settled (send t u k id o o' a e s d f n i p m) h =
    start-Settled k t u h id o o' a e (ground arith) (ground arith) d n i p
Move-Settled (claim t u id a a' e p r c) h = claim-Settled 0 t u h id a a' e p r c.same_offer
Move-Settled (settle t u k id o o' a a' e s f e' i c d) h =
    stop-Settled k t u h id o o' a a' e s e' i (c.same_offer ∙ i) d
Move-Settled (orphan t u id a a' e n d c) h = orphan-Settled t u id a a' e n c.same_offer d h
Move-Settled (again t u k id next o o' a a' b e s s' f e' i m r' c p i' m' n) h =
    again-Settled k t u h id o o' a a' b next e s s' e' i r' p c.same_offer i' n

-- However the services and the workers interleave their moves, a `sending` offer has an attempt that
-- is pending or running, and an offer is `sent` exactly when one has succeeded.
pub Reached-Settled :
    {t₀ : Table Offer} {u₀ : Table OfferSendAttempt} {t : Table Offer} {u : Table OfferSendAttempt}
    → Settled t₀ u₀
    → Reached t₀ u₀ t u
    → Settled t u
Reached-Settled h here = h
Reached-Settled h (then r m) = Move-Settled m (Reached-Settled h r)
