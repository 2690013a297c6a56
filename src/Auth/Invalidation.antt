-- ===== src/Auth/Invalidation.antt =====
-- A logout and a password reset of auth/service.py end the user's sessions, and what the rollback
-- of a refused request leaves of a family revocation.
use akar_ai.Prelude.{
  ℕ, ◌*◌, ◌+◌, ◌≡◌, ◌≢◌, ◌<◌, refl, second, String, true, false, Option, some, [], ◌∷◌, arith,
  str_eq_iff, nat_key, text_key, Option-cases, inl, inr,
}
use akar_ai.Exec.{ok, err}
use akar_ai.Table.{Table, find, put, count}
use akar_ai.Database.{User, RefreshSession}
use akar_ai.Redis.{redis_get, redis_get-redis_set}
use akar_ai.Auth.State.{
  World, Claims, Tokens, Drawn, present, day, session_invalidation_key, is_token_blacklisted,
  invalidate_user_sessions, by_token_hash, is_active_session, revoke_rows,
  apply_refresh_session_rls,
}
use akar_ai.Auth.Sessions.{
  refused, revoke_family, detect_reuse, refresh, logout, revoke_user_all_sessions, reset_password,
  get_current_user, world_transaction,
}

-- After the loop no session of the user is active.
revoke_rows-none_active :
    (user_id now : ℕ) (reason : String) (t : Table ℕ RefreshSession)
    → count (is_active_session user_id) (revoke_rows (is_active_session user_id) now reason t) ≡ 0
unfolding revoke_rows count
revoke_rows-none_active user_id now reason [] = refl
revoke_rows-none_active user_id now reason ((id, s) ∷ t) =
    ground (arith, revoke_rows-none_active user_id now reason t)

invalidation-read :
    (now later user_id : ℕ) (w : World)
    → later < now + day * 7 * second
    → redis_get later
        (session_invalidation_key user_id)
        (invalidate_user_sessions now user_id w).redis
      ≡ some now
unfolding invalidate_user_sessions
invalidation-read now later user_id w alive = rw redis_get-redis_set (
    ground
      (arith, str_eq_iff (session_invalidation_key user_id) (session_invalidation_key user_id)))

module _ (tokens : Tokens) (ttl_days : ℕ) where
  -- An access token from before the invalidation time of its user is refused.
  invalidated-refused :
      (later : ℕ) (token : String) (w : World) (payload : Claims) (user_id ts : ℕ) (r : ℕ × User)
      → tokens.decode_access_token later token ≡ some payload
      → payload.sub ≡ some user_id
      → redis_get later (session_invalidation_key user_id) w.redis ≡ some ts
      → payload.iat < ts
      → (get_current_user tokens ttl_days later token w).0 ≢ ok r
  unfolding get_current_user
  invalidated-refused later token w payload user_id ts r d s i old = λ h. ground (arith, d, s, i)

  -- After a logout, with or without a refresh cookie, an access token of the user that was issued
  -- before it is refused for the seven days that the invalidation time is kept.
  pub logout_ends_access :
      (now later user_id : ℕ) (cookie : Option String) (w : World) (token : String)
      (payload : Claims) (r : ℕ × User)
      → tokens.decode_access_token later token ≡ some payload
      → payload.sub ≡ some user_id
      → payload.iat < now
      → later < now + day * 7 * second
      → (get_current_user tokens ttl_days later token
          (logout tokens ttl_days now user_id cookie w)).0
        ≢ ok r
  unfolding logout
  logout_ends_access now later user_id cookie w token payload r d s old alive =
      invalidated-refused later token _ payload user_id now r d s
        (invalidation-read now later user_id _ alive) old

  none_active_after :
      (now user_id : ℕ) (reason : String) (w : World)
      → count
          (is_active_session user_id)
          (revoke_user_all_sessions tokens ttl_days now user_id reason w).db.refresh_sessions
        ≡ 0
  unfolding revoke_user_all_sessions apply_refresh_session_rls invalidate_user_sessions
  none_active_after now user_id reason w =
      revoke_rows-none_active user_id now reason w.db.refresh_sessions

  invalidated_after :
      (now later user_id : ℕ) (reason : String) (w : World)
      → later < now + day * 7 * second
      → redis_get later
          (session_invalidation_key user_id)
          (revoke_user_all_sessions tokens ttl_days now user_id reason w).redis
        ≡ some now
  unfolding revoke_user_all_sessions
  invalidated_after now later user_id reason w alive = invalidation-read now later user_id _ alive

  -- What a password reset that succeeded has done.
  reset :
      (now user_id : ℕ) (current_password new_password : String) (w : World) (u : Unit {0})
      → (reset_password tokens ttl_days now user_id current_password new_password w).0 ≡ ok u
      → (user : User) × (find user_id w.db.users ≡ some user)
        × (tokens.verify_password current_password user.password_hash ≡ true)
        × ((reset_password tokens ttl_days now user_id current_password new_password w).1
            ≡ revoke_user_all_sessions tokens ttl_days now user_id "password_reset" (record w {
              db = record w.db {
                users =
                    put user_id
                      (record user {
                        password_hash = tokens.hash_password new_password;
                        password_changed_at = some now;
                      })
                      w.db.users;
              };
            }))
  unfolding reset_password
  reset now user_id current_password new_password w u h =
      elim (Option-cases (find user_id w.db.users)) [
        | inl none_is ↦ absurd (ground (arith, none_is))
        | inr (user, e) ↦ (user, e, ground (arith, e), ground (arith, e))
      ]

  -- A password reset that succeeded leaves the user without an active refresh session, and an
  -- access token of the user that was issued before it is refused for the seven days that the
  -- invalidation time is kept.
  pub reset_password_ends_sessions :
      (now later user_id : ℕ) (current_password new_password : String) (w : World) (u : Unit {0})
      (token : String) (payload : Claims) (r : ℕ × User)
      → (reset_password tokens ttl_days now user_id current_password new_password w).0 ≡ ok u
      → tokens.decode_access_token later token ≡ some payload
      → payload.sub ≡ some user_id
      → payload.iat < now
      → later < now + day * 7 * second
      → (count
            (is_active_session user_id)
            (reset_password tokens ttl_days now user_id current_password new_password
              w).1.db.refresh_sessions
          ≡ 0)
        × ((get_current_user tokens ttl_days later token
              (reset_password tokens ttl_days now user_id current_password new_password w).1).0
            ≢ ok r)
  reset_password_ends_sessions now later user_id current_password new_password w u token payload r h
        d s old alive =
      let (user, e, verified, left) = reset now user_id current_password new_password w u h in
      (
        rw left (none_active_after now user_id "password_reset" _),
        invalidated-refused later token _ payload user_id now r d s
            (rw left (invalidated_after now later user_id "password_reset" _ alive)) old,
      )

  -- A refresh whose token is not on the blacklist but whose session is revoked marks the reuse of a
  -- rotated token: the user's access is invalidated in Redis, but the request is refused, so the
  -- revocation of the session's family is rolled back and the database stays as it was.
  pub reuse_revocation_is_rolled_back :
      (now : ℕ) (token : String) (drawn : Drawn) (w : World) (payload : Claims) (jti : String)
      (user_id id at : ℕ) (session : RefreshSession)
      → tokens.decode_refresh_token now token ≡ some payload
      → present payload.jti ≡ some jti
      → payload.sub ≡ some user_id
      → is_token_blacklisted now jti w.redis ≡ false
      → by_token_hash (tokens.sha256 token) w.db.refresh_sessions ≡ some (id, session)
      → session.revoked_at ≡ some at
      → (world_transaction (refresh tokens ttl_days now token drawn) w)
        ≡ (err refused, record (invalidate_user_sessions now session.user_id w) { db = w.db })
  unfolding world_transaction refresh detect_reuse revoke_family apply_refresh_session_rls
      invalidate_user_sessions
  reuse_revocation_is_rolled_back now token drawn w payload jti user_id id at session d j s b found
        rev =
      ground (arith, d, j, s, b, found, rev)
