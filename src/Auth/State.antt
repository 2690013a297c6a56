-- ===== src/Auth/State.antt =====
-- The state of auth/service.py and its primitive operations: the refresh sessions are rows of the
-- database, the blacklist and the invalidation times keys of Redis.
use akar_ai.Prelude.{
  ℕ, ◌*◌, ◌==◌, ltb, String, Bool, true, false, not, ◌&&◌, Option, none, some, [], ◌∷◌, str_eq, str,
  format, ◌≡◌, nat_key, text_key, if◌then◌else◌,
}
use akar_ai.Table.{Table}
use akar_ai.Database.{Db, RefreshSession, apply_rls_context_to_session}
use akar_ai.Redis.{Redis, redis_set, redis_get}

pub record World : Type 0 where
  pub db : Db
  pub redis : Redis

-- The claims that the service reads.
pub record Claims : Type 0 where
  pub jti : Option String
  pub sub : Option ℕ
  pub iat : ℕ

-- What the service takes from the token and password libraries. A token that is decoded twice has
-- the same claims both times.
pub record Tokens : Type 0 where
  pub decode_refresh_token : ℕ → String → Option Claims
  pub decode_access_token : ℕ → String → Option Claims
  pub sha256 : String → String
  pub verify_password : String → String → Bool
  pub hash_password : String → String
  pub same_claims :
      (n m : ℕ) (token : String) (p q : Claims)
      → decode_refresh_token n token ≡ some p
      → decode_refresh_token m token ≡ some q
      → p ≡ q

-- What a request draws: the id of a new session and its tokens.
pub record Drawn : Type 0 where
  pub session_id : ℕ
  pub access_token : String
  pub refresh_token : String

abbrev pub blacklist_key : String → String
blacklist_key jti = format ("blacklist:jti:" ∷ jti ∷ [])

abbrev pub session_invalidation_key : ℕ → String
session_invalidation_key user_id = format ("session_invalidated:" ∷ str user_id ∷ [])

abbrev pub day : ℕ
day = 86400

abbrev pub is_some {ℓ} : {A : Type ℓ} → Option A → Bool
is_some none = false
is_some (some a) = true

unfoldable pub is_token_blacklisted : ℕ → String → Redis → Bool
is_token_blacklisted now jti redis = is_some (redis_get now (blacklist_key jti) redis)

unfoldable pub blacklist_token : ℕ → ℕ → String → World → World
blacklist_token now ttl jti w = record w { redis = redis_set now (blacklist_key jti) 1 ttl w.redis }

unfoldable pub invalidate_user_sessions : ℕ → ℕ → World → World
invalidate_user_sessions now user_id w = record w {
  redis = redis_set now (session_invalidation_key user_id) now (day * 7) w.redis;
}

-- `if not jti`
abbrev pub present : Option String → Option String
present none = none
present (some s) = if str_eq s "" then none else some s

-- `get_refresh_session_by_token_hash`
unfoldable pub by_token_hash : String → Table ℕ RefreshSession → Option (ℕ × RefreshSession)
by_token_hash hash [] = none
by_token_hash hash ((id, s) ∷ t) =
    if str_eq s.token_hash hash then some (id, s) else by_token_hash hash t

-- The condition of `get_active_sessions_for_user`.
abbrev pub is_active_session : ℕ → RefreshSession → Bool
is_active_session user_id s =
    (s.user_id == user_id) && not (is_some s.revoked_at) && ltb s.issued_at s.expires_at

abbrev pub revoked : ℕ → String → RefreshSession → RefreshSession
revoked now reason s = record s { revoked_at = some now; revocation_reason = some reason }

-- The loop over the active sessions.
unfoldable pub revoke_rows :
    (RefreshSession → Bool) → ℕ → String → Table ℕ RefreshSession → Table ℕ RefreshSession
revoke_rows p now reason [] = []
revoke_rows p now reason ((id, s) ∷ t) =
    (id, if p s then revoked now reason s else s) ∷ revoke_rows p now reason t

-- `blacklist_token(str(session.id), ...)` in that loop.
unfoldable pub blacklist_rows :
    ℕ → ℕ → (RefreshSession → Bool) → Table ℕ RefreshSession → Redis → Redis
blacklist_rows now ttl p [] redis = redis
blacklist_rows now ttl p ((id, s) ∷ t) redis =
    let earlier = if p s then redis_set now (blacklist_key (str id)) 1 ttl redis else redis in
    blacklist_rows now ttl p t earlier

abbrev pub set_sessions : Table ℕ RefreshSession → World → World
set_sessions t w = record w { db = record w.db { refresh_sessions = t } }

-- `_apply_refresh_session_rls`
unfoldable pub apply_refresh_session_rls : ℕ → World → World
unfolding apply_rls_context_to_session
apply_refresh_session_rls user_id w = record w {
  db =
      (apply_rls_context_to_session
        (record { tenant_id = none; user_id = some user_id; role = ""; is_platform_admin = false })
        w.db).1;
}
