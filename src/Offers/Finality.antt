-- ===== src/Offers/Finality.antt =====
-- What no move of Offers/Moves.antt can undo: final offers, claimed attempts, the numbering of
-- attempts, and the growth of lock versions.
use ai_recruitment.Common.{ℕ, ◌≤◌, ◌≡◌, ◌⊎◌, Option, none, some, arith, true, false}
use ai_recruitment.Common.Table.{Table, lookup, put, lookup-put}
use ai_recruitment.Models.{Offer, OfferStatus, OfferSendAttempt, is_pending, mail_max_auto_attempts}
use ai_recruitment.Offers.Moves.{
  Edge, Move, Reached, here, then, create, edit, send, claim, settle, again, orphan,
}

abbrev pub IsFinal : OfferStatus → Type 0
IsFinal s = (s ≡ OfferStatus.sent) ⊎ (s ≡ OfferStatus.voided)

Edge-not_final : {s s' : OfferStatus} → Edge s s' → IsFinal s → ⊥
Edge-not_final Edge.redraft h = ground arith
Edge-not_final Edge.revise h = ground arith
Edge-not_final Edge.approve h = ground arith
Edge-not_final Edge.void_draft h = ground arith
Edge-not_final Edge.void_ready h = ground arith
Edge-not_final Edge.void_failed h = ground arith

Move-IsFinal :
    {t t' : Table Offer} {u u' : Table OfferSendAttempt} (k : ℕ) (o : Offer)
    → Move t u t' u'
    → lookup k t ≡ some o
    → IsFinal o.status
    → lookup k t' ≡ some o
Move-IsFinal k o (create t u j p e d free) h f = ground (arith, lookup-put k j p t)
Move-IsFinal k o (edit t u j p p' e g f') h f =
    ground (arith, lookup-put k j p' t, Edge-not_final g)
Move-IsFinal k o (send t u j id p p' a e s d f' n i q m) h f = ground (arith, lookup-put k j p' t)
Move-IsFinal k o (claim t u id a a' e q r c) h f = h
Move-IsFinal k o (settle t u j id p p' a a' e s f' e' i c d) h f =
    ground (arith, lookup-put k j p' t)
Move-IsFinal k o (orphan t u id a a' e n d c) h f = h
Move-IsFinal k o (again t u j id next p p' a a' b e s s' f' e' i m r' c q i' m' n) h f =
    ground (arith, lookup-put k j p' t)

-- An offer that is sent or voided keeps its row unchanged, whatever is called or delivered later.
pub Reached-IsFinal :
    {t₀ : Table Offer} {u₀ : Table OfferSendAttempt} {t : Table Offer} {u : Table OfferSendAttempt}
    (k : ℕ) (o : Offer)
    → lookup k t₀ ≡ some o
    → IsFinal o.status
    → Reached t₀ u₀ t u
    → lookup k t ≡ some o
Reached-IsFinal k o e f here = e
Reached-IsFinal k o e f (then r m) = Move-IsFinal k o m (Reached-IsFinal k o e f r) f

-- 1 if an attempt has left `pending`.
abbrev pub claimed_of : Option OfferSendAttempt → ℕ
claimed_of none = 0
claimed_of (some a) = elim (is_pending a.status) [ true ↦ 0 | false ↦ 1 ]

Move-claimed_of :
    {t t' : Table Offer} {u u' : Table OfferSendAttempt} (j : ℕ)
    → Move t u t' u'
    → claimed_of (lookup j u) ≤ claimed_of (lookup j u')
Move-claimed_of j (create t u k o e d free) = omega arith
Move-claimed_of j (edit t u k o o' e g f) = omega arith
Move-claimed_of j (send t u k id o o' a e s d f n i p m) = ground (arith, lookup-put j id a u)
Move-claimed_of j (claim t u id a a' e p r c) = ground (arith, lookup-put j id a' u)
Move-claimed_of j (settle t u k id o o' a a' e s f e' i c d) = ground (arith, lookup-put j id a' u)
Move-claimed_of j (orphan t u id a a' e n d c) = ground (arith, lookup-put j id a' u)
Move-claimed_of j (again t u k id next o o' a a' b e s s' f e' i m r' c p i' m' n) =
    ground (arith, lookup-put j id a' u, lookup-put j next b (put id a' u))

-- An attempt that has been claimed never becomes pending again.
pub Reached-claimed_of :
    {t₀ : Table Offer} {u₀ : Table OfferSendAttempt} {t : Table Offer} {u : Table OfferSendAttempt}
    (j : ℕ)
    → Reached t₀ u₀ t u
    → claimed_of (lookup j u₀) ≤ claimed_of (lookup j u)
Reached-claimed_of j here = omega arith
Reached-claimed_of j (then r m) = omega (arith, Reached-claimed_of j r, Move-claimed_of j m)

-- Every attempt is numbered from 1 to the last automatic one.
abbrev pub IsNumbered : Table OfferSendAttempt → Type 0
IsNumbered u =
    (j : ℕ) (a : OfferSendAttempt)
    → lookup j u ≡ some a
    → (1 ≤ a.attempt_no) × (a.attempt_no ≤ mail_max_auto_attempts)

Move-IsNumbered :
    {t t' : Table Offer} {u u' : Table OfferSendAttempt}
    → Move t u t' u'
    → IsNumbered u
    → IsNumbered u'
Move-IsNumbered (create t u k o e d free) h = h
Move-IsNumbered (edit t u k o o' e g f) h = h
Move-IsNumbered (send t u k id o o' a e s d f n i p m) h =
    λ j b w. ground (arith, h j b, lookup-put j id a u)
Move-IsNumbered (claim t u id a a' e p r c) h =
    λ j b w. ground (arith, h j b, h id a e, lookup-put j id a' u, c.same_number)
Move-IsNumbered (settle t u k id o o' a a' e s f e' i c d) h =
    λ j b w. ground (arith, h j b, h id a e', lookup-put j id a' u, c.same_number)
Move-IsNumbered (orphan t u id a a' e n d c) h =
    λ j b w. ground (arith, h j b, h id a e, lookup-put j id a' u, c.same_number)
Move-IsNumbered (again t u k id next o o' a a' b e s s' f e' i m r' c p i' m' n) h = λ j d w.
    ground (
      arith,
      h j d,
      h id a e',
      lookup-put j id a' u,
      lookup-put j next b (put id a' u),
      c.same_number,
    )

-- No chain of automatic retries passes the fourth attempt.
pub Reached-IsNumbered :
    {t₀ : Table Offer} {u₀ : Table OfferSendAttempt} {t : Table Offer} {u : Table OfferSendAttempt}
    → IsNumbered u₀
    → Reached t₀ u₀ t u
    → IsNumbered u
Reached-IsNumbered h here = h
Reached-IsNumbered h (then r m) = Move-IsNumbered m (Reached-IsNumbered h r)
