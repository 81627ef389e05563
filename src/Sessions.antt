-- ===== src/Sessions.antt =====
-- Login sessions (backend/app/services/sessions.py), in the Redis store that the service keeps them
-- in: refresh tokens by digest, sessions by id, and the sessions of a user. Digests are numbers; a key
-- that outlives its time to live is still there in the model.
pub mod Rotation
pub mod Revocation
mod Tests
use ai_recruitment.Common.{
  ℕ, ◌≡◌, Bool, true, false, not, ◌||◌, ◌&&◌, Option, none, some, List, [], ◌∷◌, ◌++◌, ◌==◌,
  if◌then◌else◌, elem, option_eq,
}
use ai_recruitment.Common.Table.{Table, lookup, put}

pub data SessionStatus : Type 0 where
  active used revoked : SessionStatus

abbrev pub is_active : SessionStatus → Bool
is_active SessionStatus.active = true
is_active _ = false

abbrev pub is_revoked : SessionStatus → Bool
is_revoked SessionStatus.revoked = true
is_revoked _ = false

pub record SessionRecord : Type 0 where
  pub session_id : ℕ
  pub family_id : ℕ
  pub user_id : ℕ
  pub token_version : ℕ
  pub status : SessionStatus

-- The keys `auth:refresh:…`, `auth:session:…` and `auth:user_sessions:…`.
pub record SessionStore : Type 0 where
  pub refresh : Table SessionRecord
  pub sessions : Table SessionRecord
  pub user_sessions : List (ℕ × ℕ)

-- `smembers` of a user's key
unfoldable pub members : ℕ → List (ℕ × ℕ) → List ℕ
members user [] = []
members user ((u, sid) ∷ entries) =
    let rest = members user entries in if u == user then sid ∷ rest else rest

-- `sadd`
unfoldable pub add_member : ℕ → ℕ → List (ℕ × ℕ) → List (ℕ × ℕ)
unfolding members
add_member user sid entries =
    if elem sid (members user entries) then entries else entries ++ (user, sid) ∷ []

unfoldable pub opened : ℕ → SessionRecord → SessionStore → SessionStore
unfolding add_member
opened digest r store = record {
  refresh = put digest r store.refresh;
  sessions = put r.session_id r store.sessions;
  user_sessions = add_member r.user_id r.session_id store.user_sessions;
}

-- `create_session`
unfoldable pub create_session :
    (user_id token_version digest session_id : ℕ) → SessionStore → SessionStore
create_session user_id token_version digest session_id store =
    opened digest
      (record {
        session_id = session_id;
        family_id = session_id;
        user_id = user_id;
        token_version = token_version;
        status = SessionStatus.active;
      })
      store

-- One turn of the loops that revoke: a session that is there and passes the test is revoked.
unfoldable pub revoke_one :
    (ℕ → SessionRecord → Bool) → ℕ → Table SessionRecord → Table SessionRecord
revoke_one p sid t = elim (lookup sid t) [
  | none ↦ t
  | some r ↦ (if p sid r then put sid (record r { status = SessionStatus.revoked }) t else t)
]

unfoldable pub revoke_each :
    (ℕ → SessionRecord → Bool) → List ℕ → Table SessionRecord → Table SessionRecord
revoke_each p [] t = t
revoke_each p (sid ∷ ids) t = revoke_each p ids (revoke_one p sid t)

-- `revoke_session`
unfoldable pub revoke_session : ℕ → SessionStore → SessionStore
revoke_session sid store = record store { sessions = revoke_one (λ _ _. true) sid store.sessions }

abbrev pub in_family : ℕ → ℕ → SessionRecord → Bool
in_family family _ r = r.family_id == family

-- `revoke_family`
unfoldable pub revoke_family : (family_id user_id : ℕ) → SessionStore → SessionStore
revoke_family family user store = record store {
  sessions = revoke_each (in_family family) (members user store.user_sessions) store.sessions;
}

-- `revoke_user_sessions`
unfoldable pub revoke_user_sessions : (user_id : ℕ) → Option ℕ → SessionStore → SessionStore
revoke_user_sessions user except store = record store {
  sessions =
      revoke_each (λ sid _. not (option_eq except (some sid))) (members user store.user_sessions)
        store.sessions;
}

-- What the script returns.
pub data Reply : Type 0 where
  missing_reply revoked_reply reused_reply ok_reply : Reply

-- How `rotate_refresh_token` ends: `invalid refresh token`, `refresh token reused`, or the tokens of
-- a session.
pub data Rotated : Type 0 where
  invalid reused : Rotated
  rotated : SessionRecord → Rotated

-- backend/app/integrations/redis.py: the client gives replies as text.
abbrev pub decode_responses : Bool
decode_responses = true

-- `result in {b"MISSING", b"REVOKED"}`. A text equals no bytes.
unfoldable pub is_invalid : Reply → Bool
is_invalid Reply.missing_reply = not decode_responses
is_invalid Reply.revoked_reply = not decode_responses
is_invalid _ = false

-- `result == b"REUSED"`
unfoldable pub is_reused : Reply → Bool
is_reused Reply.reused_reply = not decode_responses
is_reused _ = false

unfoldable pub next_record : ℕ → SessionRecord → SessionRecord
next_record sid old = record old { session_id = sid; status = SessionStatus.active }

-- `ROTATE_REFRESH_SCRIPT`, on the record that it finds under the old digest, and its status.
unfoldable pub rotate_script :
    (old_digest new_digest new_session_id : ℕ)
    → SessionRecord
    → SessionStatus
    → SessionStore
    → Reply × SessionStore
unfolding next_record
rotate_script old_digest new_digest sid old SessionStatus.revoked store =
    (Reply.revoked_reply, store)
rotate_script old_digest new_digest sid old SessionStatus.used store = (
  Reply.reused_reply,
  record (revoke_family old.family_id old.user_id store) {
    refresh = put old_digest (record old { status = SessionStatus.revoked }) store.refresh;
  },
)
rotate_script old_digest new_digest sid old SessionStatus.active store = (
  Reply.ok_reply,
  opened new_digest (next_record sid old) (record store {
    refresh = put old_digest (record old { status = SessionStatus.used }) store.refresh;
  }),
)

-- The end of `rotate_refresh_token`, with the script's reply.
unfoldable pub answer : SessionRecord → Reply → Rotated
unfolding is_invalid is_reused
answer new reply =
    if is_invalid reply
    then Rotated.invalid
    else if is_reused reply
    then Rotated.reused
    else Rotated.rotated new

unfoldable pub rotate_found :
    (old_digest new_digest new_session_id : ℕ)
    → SessionRecord
    → SessionStore
    → Rotated × SessionStore
rotate_found old_digest new_digest sid old store =
    let run = rotate_script old_digest new_digest sid old old.status store in
    if is_revoked old.status
    then (Rotated.invalid, store)
    else (answer (next_record sid old) run.0, run.1)

-- `rotate_refresh_token`. Between its read and the script only the status can change, and the script
-- reads that again.
unfoldable pub rotate_refresh_token :
    (old_digest new_digest new_session_id : ℕ) → SessionStore → Rotated × SessionStore
rotate_refresh_token old_digest new_digest sid store = elim (lookup old_digest store.refresh) [
  | none ↦ (Rotated.invalid, store)
  | some old ↦ rotate_found old_digest new_digest sid old store
]

-- One call of the service. New digests and session ids are fresh.
pub data Step : SessionStore → SessionStore → Type 0 where
  create :
      (user token_version digest sid : ℕ) {s : SessionStore}
      → lookup digest s.refresh ≡ none
      → lookup sid s.sessions ≡ none
      → Step s (create_session user token_version digest sid s)
  rotate :
      (old_digest new_digest sid : ℕ) {s : SessionStore}
      → lookup new_digest s.refresh ≡ none
      → lookup sid s.sessions ≡ none
      → Step s (rotate_refresh_token old_digest new_digest sid s).1
  revoke : (sid : ℕ) {s : SessionStore} → Step s (revoke_session sid s)
  revoke_kin : (family user : ℕ) {s : SessionStore} → Step s (revoke_family family user s)
  revoke_all :
      (user : ℕ) (except : Option ℕ) {s : SessionStore}
      → Step s (revoke_user_sessions user except s)

pub data Run : SessionStore → SessionStore → Type 0 where
  begin : {s : SessionStore} → Run s s
  next : {s₀ s s' : SessionStore} → Run s₀ s → Step s s' → Run s₀ s'
