-- ===== src/Auth/Sessions.antt =====
-- The operations of auth/service.py: refresh with rotation, logout, password reset and
-- revocation, and the check of an access token in `get_current_actor` of auth/dependencies.py. A
-- request that raises rolls the database back and leaves the keys of Redis.
use akar_ai.Prelude.{
  ℕ, ◌*◌, ◌+◌, ltb, second, String, Bool, false, not, ◌&&◌, Option, none, some, str_eq, nat_key,
  text_key, if◌then◌else◌,
}
use akar_ai.Exec.{
  Exec, Error, Result, ok, err, unauthorized, app_exception, pure, raise, gets, modify, or_raise,
  raise_if, ◌>>=◌, ◌>>◌,
}
use akar_ai.Table.{find, put}
use akar_ai.Database.{User, RefreshSession}
use akar_ai.Redis.{Redis, redis_get}
use akar_ai.Auth.State.{
  World, Claims, Tokens, Drawn, session_invalidation_key, day, is_some, is_token_blacklisted,
  blacklist_token, invalidate_user_sessions, present, by_token_hash, is_active_session, revoked,
  revoke_rows, blacklist_rows, set_sessions, apply_refresh_session_rls,
}

-- The service returns `None`, on which the router raises.
abbrev pub refused : Error
refused = app_exception 401 "Invalid or expired refresh token" "INVALID_REFRESH_TOKEN"

-- `_revoke_family`
unfoldable pub revoke_family : ℕ → ℕ → String → String → World → World
revoke_family now user_id family_id reason w =
    let w1 = apply_refresh_session_rls user_id w in
    invalidate_user_sessions now user_id (
      set_sessions
        (revoke_rows (λ s. is_active_session user_id s && str_eq s.family_id family_id) now reason
          w1.db.refresh_sessions)
        w1)

-- `if session.revoked_at is not None`
unfoldable pub detect_reuse : ℕ → RefreshSession → Exec World (Unit {0})
detect_reuse now session =
    if is_some session.revoked_at
    then (modify (revoke_family now session.user_id session.family_id "refresh_rotation")
        >> raise refused)
    else pure tt

abbrev pub is_active_user : User → Bool
is_active_user user = user.is_active && str_eq user.status "active"

-- The row of `_issue_session`.
abbrev pub issued : (ℕ → ℕ) → ℕ → String → String → ℕ → RefreshSession
issued expiry user_id token_hash family_id now = record {
  user_id = user_id;
  token_hash = token_hash;
  family_id = family_id;
  issued_at = now;
  expires_at = expiry now;
  last_used_at = some now;
  revoked_at = none;
  revocation_reason = none;
  replaced_by_session_id = none;
}

-- `ttl_days` is the setting `jwt_refresh_ttl_days`.
module _ (tokens : Tokens) (ttl_days : ℕ) where
  abbrev pub expiry : ℕ → ℕ
  expiry now = now + ttl_days * day * second

  -- `refresh`; the role of the new access token is in the drawn token.
  unfoldable pub refresh : ℕ → String → Drawn → Exec World Drawn
  unfolding detect_reuse
  refresh now refresh_token drawn = do
    payload ← or_raise refused (tokens.decode_refresh_token now refresh_token)
    user_id ← or_raise refused payload.sub
    jti ← or_raise refused (present payload.jti)
    modify (apply_refresh_session_rls user_id)
    blacklisted ← gets (λ w. is_token_blacklisted now jti w.redis)
    raise_if blacklisted refused
    found ← gets (λ w. by_token_hash (tokens.sha256 refresh_token) w.db.refresh_sessions)
    row ← or_raise refused found
    detect_reuse now row.1
    raise_if (ltb row.1.expires_at now) refused
    modify
        λ w. set_sessions (put row.0 (revoked now "refresh_rotation" row.1) w.db.refresh_sessions) w
    modify (blacklist_token now (ttl_days * day) jti)
    found_user ← gets (λ w. find row.1.user_id w.db.users)
    user ← or_raise refused found_user
    raise_if (not (is_active_user user)) refused
    modify λ w.
        set_sessions
          (put drawn.session_id
            (issued expiry row.1.user_id (tokens.sha256 drawn.refresh_token) row.1.family_id now)
            w.db.refresh_sessions)
          w
    modify λ w.
        set_sessions
          (put row.0
            (record (revoked now "refresh_rotation" row.1) {
              replaced_by_session_id = some drawn.session_id;
            })
            w.db.refresh_sessions)
          w
    pure drawn

  -- The row of a token that is logged out.
  abbrev logged_out : ℕ → Option (ℕ × RefreshSession) → World → World
  logged_out now none w = w
  logged_out now (some (id, s)) w =
      if is_some s.revoked_at
      then w
      else set_sessions (put id (revoked now "logout" s) w.db.refresh_sessions) w

  abbrev or_empty : Option String → String
  or_empty none = ""
  or_empty (some s) = s

  -- The body of the `try`; a token that does not decode is passed over.
  abbrev logout_token : ℕ → String → Option Claims → World → World
  logout_token now token none w = w
  logout_token now token (some payload) w =
      let w1 = blacklist_token now (ttl_days * day) (or_empty payload.jti) w in
      logged_out now (by_token_hash (tokens.sha256 token) w1.db.refresh_sessions) w1

  abbrev logout_cookie : ℕ → Option String → World → World
  logout_cookie now none w = w
  logout_cookie now (some token) w =
      if str_eq token ""
      then w
      else logout_token now token (tokens.decode_refresh_token now token) w

  unfoldable pub logout : ℕ → ℕ → Option String → World → World
  logout now user_id refresh_token w =
      invalidate_user_sessions now user_id
        (logout_cookie now refresh_token (apply_refresh_session_rls user_id w))

  -- `revoke_user_all_sessions`; no caller reads the count that it returns.
  unfoldable pub revoke_user_all_sessions : ℕ → ℕ → String → World → World
  revoke_user_all_sessions now user_id reason w =
      let w1 = apply_refresh_session_rls user_id w in
      let sessions = w1.db.refresh_sessions in
      invalidate_user_sessions now user_id
        (record (set_sessions (revoke_rows (is_active_session user_id) now reason sessions) w1) {
          redis = blacklist_rows now (ttl_days * day) (is_active_session user_id) sessions w1.redis;
        })

  -- `reset_password`; on `False` the router raises.
  unfoldable pub reset_password : ℕ → ℕ → String → String → Exec World (Unit {0})
  reset_password now user_id current_password new_password = do
    let wrong = app_exception 400 "Current password is incorrect" "INVALID_PASSWORD"
    found ← gets (λ w. find user_id w.db.users)
    user ← or_raise wrong found
    raise_if (not (tokens.verify_password current_password user.password_hash)) wrong
    modify λ w. record w {
      db = record w.db {
        users =
            put user_id
              (record user {
                password_hash = tokens.hash_password new_password;
                password_changed_at = some now;
              })
              w.db.users;
      };
    }
    modify (revoke_user_all_sessions now user_id "password_reset")

  abbrev is_listed : ℕ → Option String → Redis → Bool
  is_listed now none redis = false
  is_listed now (some jti) redis = is_token_blacklisted now jti redis

  abbrev is_invalidated : ℕ → Option ℕ → Bool
  is_invalidated iat none = false
  is_invalidated iat (some invalidation_ts) = ltb iat invalidation_ts

  -- `get_current_actor`, up to the user that it finds.
  unfoldable pub get_current_user : ℕ → String → Exec World (ℕ × User)
  get_current_user now token = do
    payload ←
        or_raise (unauthorized "Invalid or expired access token")
          (tokens.decode_access_token now token)
    listed ← gets (λ w. is_listed now (present payload.jti) w.redis)
    raise_if listed (unauthorized "Token has been revoked")
    user_id ← or_raise (unauthorized "Invalid token payload") payload.sub
    invalidation_ts ← gets (λ w. redis_get now (session_invalidation_key user_id) w.redis)
    raise_if (is_invalidated payload.iat invalidation_ts)
        (unauthorized "Session has been invalidated")
    found ← gets (λ w. find user_id w.db.users)
    user ← or_raise (unauthorized "Actor not found") found
    raise_if (not (is_active_user user)) (unauthorized "Actor is not active")
    pure (user_id, user)

-- `get_db_session` around a request that also writes Redis: a raise rolls the database back and
-- leaves Redis as written.
abbrev pub settle_world : {A : Type 0} → World → Result A → World → Result A × World
settle_world before (ok a) written = (ok a, written)
settle_world before (err e) written = (err e, record written { db = before.db })

unfoldable pub world_transaction : {A : Type 0} → Exec World A → Exec World A
world_transaction m w = settle_world w (m w).0 (m w).1
