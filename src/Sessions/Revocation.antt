-- ===== src/Sessions/Revocation.antt =====
-- What revoking sessions does to sessions, and what it leaves of refresh tokens
-- (backend/app/services/sessions.py).
use ai_recruitment.Common.{
  ℕ, ◌≡◌, refl, inl, inr, Bool, true, false, ◌==◌, Option, none, some, List, [], ◌∷◌, elem,
  Option-cases, Bool-cases, arith,
}
use ai_recruitment.Common.Table.{Table, lookup, lookup-put, lookup-put_self}
use ai_recruitment.Sessions.Rotation.{revoke_each-none}
use ai_recruitment.Sessions.{
  rotate_script, answer, is_invalid, is_reused, SessionStatus, SessionRecord, SessionStore, members,
  opened, in_family, revoke_one, revoke_each, rotated, rotate_found, rotate_refresh_token,
  next_record, revoke_session, revoke_family, revoke_user_sessions,
}

-- The record of a session once it is revoked.
abbrev pub gone : SessionRecord → SessionRecord
gone r = record r { status = SessionStatus.revoked }

revoke_one-gone :
    (p : ℕ → SessionRecord → Bool) (k sid : ℕ) (r : SessionRecord) (t : Table SessionRecord)
    → lookup sid t ≡ some (gone r)
    → lookup sid (revoke_one p k t) ≡ some (gone r)
unfolding revoke_one
revoke_one-gone p k sid r t e = elim (Option-cases (lookup k t)) [
  | inl n ↦ ground (arith, n, e)
  | inr (v, f) ↦ ground (arith, f, e, lookup-put sid k (gone v) t)
]

revoke_each-gone :
    (p : ℕ → SessionRecord → Bool) (ids : List ℕ) (sid : ℕ) (r : SessionRecord)
    (t : Table SessionRecord)
    → lookup sid t ≡ some (gone r)
    → lookup sid (revoke_each p ids t) ≡ some (gone r)
unfolding revoke_each
revoke_each-gone p [] sid r t e = e
revoke_each-gone p (k ∷ ids) sid r t e =
    revoke_each-gone p ids sid r (revoke_one p k t) (revoke_one-gone p k sid r t e)

revoke_one_other :
    (p : ℕ → SessionRecord → Bool) (k sid : ℕ) (t : Table SessionRecord)
    → (k == sid) ≡ false
    → lookup sid (revoke_one p k t) ≡ lookup sid t
unfolding revoke_one
revoke_one_other p k sid t n = elim (Option-cases (lookup k t)) [
  | inl e ↦ ground (arith, e)
  | inr (v, e) ↦ ground (arith, e, n, lookup-put sid k (gone v) t)
]

revoke_one_self :
    (p : ℕ → SessionRecord → Bool) (sid : ℕ) (r : SessionRecord) (t : Table SessionRecord)
    → lookup sid t ≡ some r
    → p sid r ≡ true
    → lookup sid (revoke_one p sid t) ≡ some (gone r)
unfolding revoke_one
revoke_one_self p sid r t e h = ground (arith, e, h, lookup-put_self sid (gone r) t)

-- A session that is in the loop's list and passes the test is revoked by it.
revoke_each-revokes :
    (p : ℕ → SessionRecord → Bool) (ids : List ℕ) (sid : ℕ) (r : SessionRecord)
    (t : Table SessionRecord)
    → elem sid ids ≡ true
    → lookup sid t ≡ some r
    → p sid r ≡ true
    → lookup sid (revoke_each p ids t) ≡ some (gone r)
unfolding revoke_each
revoke_each-revokes p [] sid r t m e h = ground (arith, m)
revoke_each-revokes p (k ∷ ids) sid r t m e h = elim (Bool-cases (k == sid)) [
  | inl y ↦
      let same : k ≡ sid = ground (arith, y) in
      revoke_each-gone p ids sid r (revoke_one p k t) (rw same (revoke_one_self p sid r t e h))
  | inr n ↦
      revoke_each-revokes p ids sid r (revoke_one p k t) (ground (arith, m, n))
        (rw (revoke_one_other p k sid t n) e) h
]

-- A rotation with a used token revokes every session of its family that is listed for the user. It
-- is not turned down: the client gives the script's reply as text, which equals none of the bytes that
-- the code compares it with, so the tokens of a session are returned; the session is not stored.
pub reuse-revokes :
    (d new sid : ℕ) (old r : SessionRecord) (k : ℕ) (s : SessionStore)
    → lookup d s.refresh ≡ some old
    → old.status ≡ SessionStatus.used
    → elem k (members old.user_id s.user_sessions) ≡ true
    → lookup k s.sessions ≡ some r
    → r.family_id ≡ old.family_id
    → lookup sid s.sessions ≡ none
    → (lookup k (rotate_refresh_token d new sid s).1.sessions ≡ some (gone r))
      × ((rotate_refresh_token d new sid s).0 ≡ rotated (next_record sid old))
      × (lookup sid (rotate_refresh_token d new sid s).1.sessions ≡ none)
unfolding rotate_refresh_token rotate_found rotate_script revoke_family answer is_invalid is_reused
reuse-revokes d new sid old r k s e u m f i n =
    let p = in_family old.family_id in
    let ids = members old.user_id s.user_sessions in
    (
      ground (arith, e, u, revoke_each-revokes p ids k r s.sessions m f (ground (arith, i))),
      ground (arith, e, u),
      ground (arith, e, u, revoke_each-none p ids sid s.sessions n),
    )

-- A token that is active is rotated to an active session.
active-rotates :
    (d new sid : ℕ) (r : SessionRecord) (s : SessionStore)
    → lookup d s.refresh ≡ some r
    → r.status ≡ SessionStatus.active
    → ((rotate_refresh_token d new sid s).0 ≡ rotated (next_record sid r))
      × (lookup sid (rotate_refresh_token d new sid s).1.sessions ≡ some (next_record sid r))
unfolding rotate_refresh_token rotate_found rotate_script opened next_record answer is_invalid
    is_reused
active-rotates d new sid r s e u =
    (ground (arith, e, u), ground (arith, e, u, lookup-put_self sid (next_record sid r) s.sessions))

-- Detecting the reuse of one token keeps the others.
reused-keeps :
    (d new sid : ℕ) (old r : SessionRecord) (e : ℕ) (s : SessionStore)
    → lookup d s.refresh ≡ some old
    → old.status ≡ SessionStatus.used
    → lookup e s.refresh ≡ some r
    → r.status ≡ SessionStatus.active
    → lookup e (rotate_refresh_token d new sid s).1.refresh ≡ some r
unfolding rotate_refresh_token rotate_found rotate_script
reused-keeps d new sid old r e s f u g a =
    ground (arith, f, u, g, a, lookup-put e d (gone old) s.refresh)

-- Revocation leaves refresh tokens alone: after a rotation with a used token, after the logout of any
-- session, and after the sessions of a user were revoked, another token that is active, of the same
-- family too, still rotates to a session that is active.
pub revoked-rotates :
    (d new sid new' sid' k : ℕ) (except : Option ℕ) (old r : SessionRecord) (e : ℕ)
    (s : SessionStore)
    → lookup d s.refresh ≡ some old
    → old.status ≡ SessionStatus.used
    → lookup e s.refresh ≡ some r
    → r.status ≡ SessionStatus.active
    → ((reuse logout revoke : SessionStore) × (reuse ≡ (rotate_refresh_token d new sid s).1)
        × (logout ≡ revoke_session k s)
        × (revoke ≡ revoke_user_sessions r.user_id except s)
        × (lookup sid' (rotate_refresh_token e new' sid' reuse).1.sessions
            ≡ some (next_record sid' r))
        × (lookup sid' (rotate_refresh_token e new' sid' logout).1.sessions
            ≡ some (next_record sid' r))
        × (lookup sid' (rotate_refresh_token e new' sid' revoke).1.sessions
            ≡ some (next_record sid' r)))
unfolding revoke_session revoke_user_sessions
revoked-rotates d new sid new' sid' k except old r e s f u g a = (
  (rotate_refresh_token d new sid s).1,
  revoke_session k s,
  revoke_user_sessions r.user_id except s,
  refl,
  refl,
  refl,
  (active-rotates e new' sid' r (rotate_refresh_token d new sid s).1
      (reused-keeps d new sid old r e s f u g a) a).1,
  (active-rotates e new' sid' r (revoke_session k s) g a).1,
  (active-rotates e new' sid' r (revoke_user_sessions r.user_id except s) g a).1,
)
