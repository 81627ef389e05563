-- ===== src/Offers/Store.antt =====
-- backend/app/repositories/offers.py, with the constraints of backend/app/models/offer.py that a
-- flush checks.
use ai_recruitment.Common.{
  ℕ, ◌+◌, Bool, not, ◌&&◌, ◌||◌, Option, none, some, List, [], ◌∷◌, ◌==◌, is_some, if◌then◌else◌,
  ltb, raise_if, gets, modify, ◌>>=◌, ◌>>◌,
}
use ai_recruitment.Common.Text.{Text, text_eq}
use ai_recruitment.Common.Table.{Table, lookup, put, find_row, rows}
use ai_recruitment.Models.{
  Db, Offer, is_voided, OfferVersion, OfferSendAttempt, HiringDecision, is_recommend_hire,
}
use ai_recruitment.Offers.Base.{Handler, integrity_error}

-- `get_offer_version` at a nullable key, with the key
unfoldable pub get_current_version : Option ℕ → Db → Option (ℕ × OfferVersion)
get_current_version none db = none
get_current_version (some vid) db = elim (lookup vid db.offer_versions) [
  | none ↦ none
  | some v ↦ some (vid, v)
]

-- The rows of the partial index `uq_offers_application_active`.
unfoldable pub active_for : ℕ → Offer → Bool
active_for application_id o = o.application_id == application_id && not (is_voided o.status)

-- `find_active_offer_for_application`
unfoldable pub find_active_offer : ℕ → Db → Option (ℕ × Offer)
unfolding active_for
find_active_offer application_id db = find_row (active_for application_id) db.offers

-- `list_recommend_hire_decisions(...)[0]`: the newest, and by the greater key among equals
unfoldable pub newer : ℕ × HiringDecision → ℕ × HiringDecision → Bool
newer (i, a) (j, b) = ltb b.created_at a.created_at || (a.created_at == b.created_at && ltb j i)

unfoldable pub newest : List (ℕ × HiringDecision) → Option (ℕ × HiringDecision)
newest [] = none
newest (d ∷ ds) = elim (newest ds) [
  | none ↦ some d
  | some e ↦ (if newer e d then some e else some d)
]

unfoldable pub recommends_hire : ℕ → HiringDecision → Bool
recommends_hire application_id d =
    d.application_id == application_id && is_recommend_hire d.decision

unfoldable pub latest_recommend_hire : ℕ → Db → Option (ℕ × HiringDecision)
unfolding newer newest recommends_hire
latest_recommend_hire application_id db =
    newest (rows (recommends_hire application_id) db.hiring_decisions)

-- `max(version_no)` over the versions of an offer, 0 if it has none
unfoldable pub max_version_no : ℕ → Table OfferVersion → ℕ
max_version_no offer_id [] = 0
max_version_no offer_id ((vid, v) ∷ t) =
    let rest = max_version_no offer_id t in
    if v.offer_id == offer_id && ltb rest v.version_no then v.version_no else rest

-- `next_version_no`
unfoldable pub next_version_no : ℕ → Db → ℕ
unfolding max_version_no
next_version_no offer_id db = max_version_no offer_id db.offer_versions + 1

-- `find_attempt_by_idempotency`
unfoldable pub same_attempt_key : ℕ → Text → OfferSendAttempt → Bool
same_attempt_key offer_id key a = a.offer_id == offer_id && text_eq a.idempotency_key key

unfoldable pub find_attempt_by_key : ℕ → Text → Db → Option (ℕ × OfferSendAttempt)
unfolding same_attempt_key
find_attempt_by_key offer_id key db = find_row (same_attempt_key offer_id key) db.send_attempts

-- `add_offer`
unfoldable pub add_offer : ℕ → Offer → Handler (Unit {0})
unfolding find_active_offer
add_offer id o = do
  raise_if (← gets (λ db. is_some (lookup id db.offers))) integrity_error
  raise_if (← gets (λ db. is_some (find_active_offer o.application_id db))) integrity_error
  modify λ db. record db { offers = put id o db.offers }

unfoldable pub same_version : ℕ → ℕ → OfferVersion → Bool
same_version offer_id version_no v = v.offer_id == offer_id && v.version_no == version_no

-- `add_offer_version`
unfoldable pub add_offer_version : ℕ → OfferVersion → Handler (Unit {0})
unfolding same_version
add_offer_version id v = do
  raise_if (← gets (λ db. is_some (lookup id db.offer_versions))) integrity_error
  raise_if
      (← gets (λ db. is_some (find_row (same_version v.offer_id v.version_no) db.offer_versions)))
      integrity_error
  modify λ db. record db { offer_versions = put id v db.offer_versions }

-- `add_offer_send_attempt`
unfoldable pub add_offer_send_attempt : ℕ → OfferSendAttempt → Handler (Unit {0})
unfolding find_attempt_by_key
add_offer_send_attempt id a = do
  raise_if (← gets (λ db. is_some (lookup id db.send_attempts))) integrity_error
  raise_if (← gets (λ db. is_some (find_attempt_by_key a.offer_id a.idempotency_key db)))
      integrity_error
  modify λ db. record db { send_attempts = put id a db.send_attempts }

-- A row that was changed through the session, written back at the next flush.
unfoldable pub save_offer : ℕ → Offer → Handler (Unit {0})
save_offer id o = modify λ db. record db { offers = put id o db.offers }

unfoldable pub save_version : ℕ → OfferVersion → Handler (Unit {0})
save_version id v = modify λ db. record db { offer_versions = put id v db.offer_versions }

unfoldable pub save_attempt : ℕ → OfferSendAttempt → Handler (Unit {0})
save_attempt id a = modify λ db. record db { send_attempts = put id a db.send_attempts }
