-- ===== src/Offers/Active.antt =====
-- An application has one offer that is not voided, at most: what the partial index
-- `uq_offers_application_active` of backend/app/models/offer.py is for.
use ai_recruitment.Common.{ℕ, ◌≤◌, ◌≡◌, refl, false, some, arith}
use ai_recruitment.Common.Table.{Table, lookup, put, count, count-put, count-put_new}
use ai_recruitment.Models.{Offer, OfferStatus, OfferSendAttempt, is_voided}
use ai_recruitment.Offers.Store.{active_for}
use ai_recruitment.Offers.Moves.{
  Edge, Move, Reached, here, then, Follows, create, edit, send, claim, settle, again, orphan,
}

abbrev pub AtMostOneActive : Table Offer → Type 0
AtMostOneActive t = (application_id : ℕ) → count (active_for application_id) t ≤ 1

Edge-not_voided : {s s' : OfferStatus} → Edge s s' → is_voided s ≡ false
Edge-not_voided Edge.redraft = refl
Edge-not_voided Edge.revise = refl
Edge-not_voided Edge.approve = refl
Edge-not_voided Edge.void_draft = refl
Edge-not_voided Edge.void_ready = refl
Edge-not_voided Edge.void_failed = refl

-- An offer that was active and stays with its application leaves room for no other.
keep-AtMostOneActive :
    (t : Table Offer) (k : ℕ) (o o' : Offer)
    → lookup k t ≡ some o
    → is_voided o.status ≡ false
    → Follows o o'
    → AtMostOneActive t
    → AtMostOneActive (put k o' t)
unfolding active_for
keep-AtMostOneActive t k o o' e n f h =
    λ j. ground (arith, h j, f.same_application, count-put (active_for j) k o' o t)

Move-AtMostOneActive :
    {t t' : Table Offer} {u u' : Table OfferSendAttempt}
    → Move t u t' u'
    → AtMostOneActive t
    → AtMostOneActive t'
unfolding active_for
Move-AtMostOneActive (create t u k o e d free) h =
    λ j. ground (arith, h j, count-put_new (active_for j) k o t e)
Move-AtMostOneActive (edit t u k o o' e g f) h =
    keep-AtMostOneActive t k o o' e (Edge-not_voided g) f h
Move-AtMostOneActive (send t u k id o o' a e s d f n i p m) h =
    keep-AtMostOneActive t k o o' e (ground arith) f h
Move-AtMostOneActive (claim t u id a a' e p r c) h = h
Move-AtMostOneActive (settle t u k id o o' a a' e s f e' i c d) h =
    keep-AtMostOneActive t k o o' e (ground arith) f h
Move-AtMostOneActive (orphan t u id a a' e n d c) h = h
Move-AtMostOneActive (again t u k id next o o' a a' b e s s' f e' i m r' c p i' m' n) h =
    keep-AtMostOneActive t k o o' e (ground arith) f h

-- Whatever moves are made, no application gets a second active offer.
pub Reached-AtMostOneActive :
    {t₀ : Table Offer} {u₀ : Table OfferSendAttempt} {t : Table Offer} {u : Table OfferSendAttempt}
    → AtMostOneActive t₀
    → Reached t₀ u₀ t u
    → AtMostOneActive t
Reached-AtMostOneActive h here = h
Reached-AtMostOneActive h (then r m) = Move-AtMostOneActive m (Reached-AtMostOneActive h r)
