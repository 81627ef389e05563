-- ===== src/Sessions/Tests.antt =====
-- Concrete sessions: user 5 logs in with digest 10, and rotates to 11.
use ai_recruitment.Common.{◌≡◌, refl, some, none, []}
use ai_recruitment.Common.Table.{lookup, put}
use ai_recruitment.Sessions.{
  SessionStatus, SessionRecord, SessionStore, members, add_member, opened, create_session, rotated,
  rotate_found, rotate_script, answer, is_invalid, is_reused, revoke_each, revoke_one,
  revoke_family, rotate_refresh_token, next_record, revoke_session, revoke_user_sessions, begin,
}
use ai_recruitment.Sessions.Rotation.{rotate-once}
use ai_recruitment.Sessions.Revocation.{gone, reuse-revokes, revoked-rotates}

abbrev logged_in : SessionStore
logged_in = create_session 5 1 10 100 (record { refresh = []; sessions = []; user_sessions = [] })

abbrev first_record : SessionRecord
first_record = record {
  session_id = 100;
  family_id = 100;
  user_id = 5;
  token_version = 1;
  status = SessionStatus.active;
}

abbrev second_record : SessionRecord
second_record = record first_record { session_id = 101 }

abbrev used_record : SessionRecord
used_record = record first_record { status = SessionStatus.used }

abbrev refreshed : SessionStore
refreshed = (rotate_refresh_token 10 11 101 logged_in).1

rotate-once_example :
    (lookup 13 (rotate_refresh_token 10 13 103 refreshed).1.refresh ≡ none)
    × (lookup 103 (rotate_refresh_token 10 13 103 refreshed).1.sessions ≡ none)
unfolding create_session rotate_refresh_token rotate_found rotate_script answer is_invalid is_reused
    opened lookup put next_record members add_member revoke_each revoke_one revoke_family
rotate-once_example =
    rotate-once 10 11 101 13 103 second_record logged_in refreshed refl refl begin refl refl

reuse-revokes_example :
    (lookup 101 (rotate_refresh_token 10 12 102 refreshed).1.sessions ≡ some (gone second_record))
    × ((rotate_refresh_token 10 12 102 refreshed).0 ≡ rotated (next_record 102 used_record))
    × (lookup 102 (rotate_refresh_token 10 12 102 refreshed).1.sessions ≡ none)
unfolding create_session rotate_refresh_token rotate_found rotate_script answer is_invalid is_reused
    opened lookup put next_record members add_member revoke_each revoke_one revoke_family
reuse-revokes_example =
    reuse-revokes 10 12 102 used_record second_record 101 refreshed refl refl refl refl refl refl

revoked-rotates_example :
    (reuse : SessionStore) × (logout : SessionStore) × (revoke : SessionStore) × (reuse
      ≡ (rotate_refresh_token 10 12 102 refreshed).1)
    × (logout ≡ revoke_session 101 refreshed)
    × (revoke ≡ revoke_user_sessions 5 none refreshed)
    × (lookup 103 (rotate_refresh_token 11 13 103 reuse).1.sessions
        ≡ some (next_record 103 second_record))
    × (lookup 103 (rotate_refresh_token 11 13 103 logout).1.sessions
        ≡ some (next_record 103 second_record))
    × (lookup 103 (rotate_refresh_token 11 13 103 revoke).1.sessions
        ≡ some (next_record 103 second_record))
unfolding create_session rotate_refresh_token rotate_found rotate_script answer is_invalid is_reused
    opened lookup put next_record members add_member revoke_each revoke_one revoke_family
revoked-rotates_example =
    revoked-rotates 10 12 102 13 103 101 none used_record second_record 11 refreshed refl refl refl
      refl
