-- ===== src/Sessions/Rotation.antt =====
-- A refresh token is good for one rotation (backend/app/services/sessions.py).
use ai_recruitment.Common.{
  ℕ, ◌≡◌, refl, inl, inr, Bool, true, false, ◌==◌, none, some, List, [], ◌∷◌, Option-cases,
  Bool-cases, arith,
}
use ai_recruitment.Common.Table.{Table, lookup, put, lookup-put, lookup-put_self}
use ai_recruitment.Sessions.{
  SessionStatus, SessionRecord, SessionStore, is_active, is_revoked, rotate_script, revoke_one,
  revoke_each, in_family, members, opened, create_session, rotated, rotate_found,
  rotate_refresh_token, next_record, revoke_session, revoke_family, revoke_user_sessions, Step, Run,
  begin, next,
}

-- A refresh token that was used or revoked.
pub record Spent (digest : ℕ) (t : Table SessionRecord) : Type 0 where
  pub row : SessionRecord
  pub found : lookup digest t ≡ some row
  pub over : is_active row.status ≡ false

put-Spent :
    (digest k : ℕ) (r : SessionRecord) (t : Table SessionRecord)
    → (k ≡ digest → is_active r.status ≡ false)
    → Spent digest t
    → Spent digest (put k r t)
put-Spent digest k r t o h = elim (Bool-cases (k == digest)) [
  | inl y ↦ record {
    row = r;
    found = ground (arith, lookup-put digest k r t, y);
    over = o (ground (arith, y));
  }
  | inr n ↦ record {
    row = h.row;
    found = ground (arith, lookup-put digest k r t, n, h.found);
    over = h.over;
  }
]

-- The store after a rotation, by what is found under the digest.
rotate_none :
    (d new sid : ℕ) (s : SessionStore)
    → lookup d s.refresh ≡ none
    → (rotate_refresh_token d new sid s).1 ≡ s
unfolding rotate_refresh_token
rotate_none d new sid s e = ground (arith, e)

script_revoked :
    (d new sid : ℕ) (r : SessionRecord) (status : SessionStatus) (s : SessionStore)
    → is_revoked status ≡ true
    → (rotate_script d new sid r status s).1 ≡ s
unfolding rotate_script
script_revoked d new sid r SessionStatus.revoked s h = refl
script_revoked d new sid r SessionStatus.used s h = ground (arith, h)
script_revoked d new sid r SessionStatus.active s h = ground (arith, h)

rotate_some :
    (d new sid : ℕ) (r : SessionRecord) (s : SessionStore)
    → lookup d s.refresh ≡ some r
    → (rotate_refresh_token d new sid s).1 ≡ (rotate_script d new sid r r.status s).1
unfolding rotate_refresh_token rotate_found
rotate_some d new sid r s e = ground (arith, e, script_revoked d new sid r r.status s)

-- Revoking adds no session.
revoke_one-none :
    (p : ℕ → SessionRecord → Bool) (k sid : ℕ) (t : Table SessionRecord)
    → lookup sid t ≡ none
    → lookup sid (revoke_one p k t) ≡ none
unfolding revoke_one
revoke_one-none p k sid t n = elim (Option-cases (lookup k t)) [
  | inl e ↦ ground (arith, e, n)
  | inr (v, e) ↦
      ground (arith, e, n, lookup-put sid k (record v { status = SessionStatus.revoked }) t)
]

pub revoke_each-none :
    (p : ℕ → SessionRecord → Bool) (ids : List ℕ) (sid : ℕ) (t : Table SessionRecord)
    → lookup sid t ≡ none
    → lookup sid (revoke_each p ids t) ≡ none
unfolding revoke_each
revoke_each-none p [] sid t n = n
revoke_each-none p (k ∷ ids) sid t n =
    revoke_each-none p ids sid (revoke_one p k t) (revoke_one-none p k sid t n)

rotate_script-Spent :
    (d old new sid : ℕ) (r : SessionRecord) (status : SessionStatus) (s : SessionStore)
    → lookup new s.refresh ≡ none
    → Spent d s.refresh
    → Spent d (rotate_script old new sid r status s).1.refresh
unfolding rotate_script revoke_family opened
rotate_script-Spent d old new sid r SessionStatus.revoked s n h = h
rotate_script-Spent d old new sid r SessionStatus.used s n h =
    put-Spent d old (record r { status = SessionStatus.revoked }) s.refresh (λ e. refl) h
rotate_script-Spent d old new sid r SessionStatus.active s n h =
    let u = record r { status = SessionStatus.used } in
    put-Spent d new (next_record sid r) (put old u s.refresh) (λ e. ground (arith, e, n, h.found))
      (put-Spent d old u s.refresh (λ e. refl) h)

Step-Spent : (d : ℕ) {s s' : SessionStore} → Step s s' → Spent d s.refresh → Spent d s'.refresh
unfolding create_session revoke_session revoke_family revoke_user_sessions opened
Step-Spent d {s} (Step.create user version digest sid n m) h =
    let r : SessionRecord = record {
      session_id = sid;
      family_id = sid;
      user_id = user;
      token_version = version;
      status = SessionStatus.active;
    } in
    put-Spent d digest r s.refresh (λ e. ground (arith, e, n, h.found)) h
Step-Spent d {s} (Step.rotate old new sid n m) h = elim (Option-cases (lookup old s.refresh)) [
  | inl e ↦ rw (rotate_none old new sid s e) h
  | inr (r, e) ↦
      rw (rotate_some old new sid r s e) (rotate_script-Spent d old new sid r r.status s n h)
]
Step-Spent d (Step.revoke sid) h = h
Step-Spent d (Step.revoke_kin family user) h = h
Step-Spent d (Step.revoke_all user except) h = h

Run-Spent : (d : ℕ) {s s' : SessionStore} → Run s s' → Spent d s.refresh → Spent d s'.refresh
Run-Spent d begin h = h
Run-Spent d (next r s) h = Step-Spent d s (Run-Spent d r h)

put_self-Spent :
    (d : ℕ) (r : SessionRecord) (t : Table SessionRecord)
    → is_active r.status ≡ false
    → Spent d (put d r t)
put_self-Spent d r t o = record { row = r; found = lookup-put_self d r t; over = o }

found-Spent :
    (d new sid : ℕ) (old : SessionRecord) (status : SessionStatus) (s : SessionStore)
    → lookup new s.refresh ≡ none
    → lookup d s.refresh ≡ some old
    → old.status ≡ status
    → Spent d (rotate_script d new sid old status s).1.refresh
unfolding rotate_script revoke_family opened
found-Spent d new sid old SessionStatus.revoked s n e o = record {
  row = old;
  found = e;
  over = ground (arith, o);
}
found-Spent d new sid old SessionStatus.used s n e o =
    put_self-Spent d (record old { status = SessionStatus.revoked }) s.refresh refl
found-Spent d new sid old SessionStatus.active s n e o =
    let u = record old { status = SessionStatus.used } in
    put-Spent d new (next_record sid old) (put d u s.refresh) (λ x. ground (arith, x, n, e))
      (put_self-Spent d u s.refresh refl)

-- What a rotation that gives tokens leaves under its digest.
rotated-Spent :
    (d new sid : ℕ) (r : SessionRecord) (s : SessionStore)
    → lookup new s.refresh ≡ none
    → (rotate_refresh_token d new sid s).0 ≡ rotated r
    → Spent d (rotate_refresh_token d new sid s).1.refresh
unfolding rotate_refresh_token
rotated-Spent d new sid r s n h = elim (Option-cases (lookup d s.refresh)) [
  | inl e ↦ ground (arith, e, h)
  | inr (old, e) ↦
      rw (rotate_some d new sid old s e) (found-Spent d new sid old old.status s n e refl)
]

-- A spent token opens nothing.
spent_script :
    (d new sid : ℕ) (r : SessionRecord) (status : SessionStatus) (s : SessionStore)
    → is_active status ≡ false
    → lookup d s.refresh ≡ some r
    → lookup new s.refresh ≡ none
    → lookup sid s.sessions ≡ none
    → (lookup new (rotate_script d new sid r status s).1.refresh ≡ none)
      × (lookup sid (rotate_script d new sid r status s).1.sessions ≡ none)
unfolding rotate_script revoke_family
spent_script d new sid r SessionStatus.revoked s o e n m = (n, m)
spent_script d new sid r SessionStatus.used s o e n m = (
  ground (arith, e, n, lookup-put new d (record r { status = SessionStatus.revoked }) s.refresh),
  revoke_each-none (in_family r.family_id) (members r.user_id s.user_sessions) sid s.sessions m,
)
spent_script d new sid r SessionStatus.active s o e n m = ground (arith, o)

-- A refresh token opens one session: after a rotation that gave tokens, whatever sessions are opened,
-- rotated and revoked then, a rotation with the same token stores neither a session nor a new refresh
-- token, whose keys are fresh.
pub rotate-once :
    (d new sid new' sid' : ℕ) (r : SessionRecord) (s s' : SessionStore)
    → lookup new s.refresh ≡ none
    → (rotate_refresh_token d new sid s).0 ≡ rotated r
    → Run (rotate_refresh_token d new sid s).1 s'
    → lookup new' s'.refresh ≡ none
    → lookup sid' s'.sessions ≡ none
    → (lookup new' (rotate_refresh_token d new' sid' s').1.refresh ≡ none)
      × (lookup sid' (rotate_refresh_token d new' sid' s').1.sessions ≡ none)
rotate-once d new sid new' sid' r s s' n h run n' m =
    let v = Run-Spent d run (rotated-Spent d new sid r s n h) in
    rw (rotate_some d new' sid' v.row s' v.found)
      (spent_script d new' sid' v.row v.row.status s' v.over v.found n' m)
