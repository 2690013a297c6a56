-- ===== src/Auth/Revocation.antt =====
-- What a revocation stops: a refresh token works once, and a logout or a password reset ends the
-- sessions of the user.
use akar_ai.Prelude.{
  ℕ, ◌*◌, ◌+◌, ◌≡◌, ◌⊎◌, ◌<◌, second, String, true, false, ltb, some, arith, str_eq_iff, nat_key,
  text_key, Option-cases, Bool-cases, inl, inr,
}
use akar_ai.Exec.{ok, err, Raised, passed_guards}
use akar_ai.Table.{find}
use akar_ai.Database.{User, RefreshSession}
use akar_ai.Redis.{Redis, redis_set, redis_get-redis_set}
use akar_ai.Auth.State.{
  World, Claims, Tokens, Drawn, blacklist_key, day, is_token_blacklisted, blacklist_token, present,
  is_some, by_token_hash, apply_refresh_session_rls,
}
use akar_ai.Auth.Sessions.{refused, detect_reuse, refresh, is_active_user}

module _ (tokens : Tokens) (ttl_days : ℕ) where
  is_listed :
      (now later : ℕ) (jti : String) (redis redis' : Redis)
      → later < now + ttl_days * day * second
      → redis' ≡ redis_set now (blacklist_key jti) 1 (ttl_days * day) redis
      → is_token_blacklisted later jti redis' ≡ true
  unfolding is_token_blacklisted
  is_listed now later jti redis redis' alive e =
      rw (e, redis_get-redis_set)
        (ground (arith, str_eq_iff (blacklist_key jti) (blacklist_key jti)))

  -- A refresh of a token on the blacklist is refused and writes nothing but the session context.
  pub blacklisted-refused :
      (now : ℕ) (token : String) (drawn : Drawn) (w : World) (payload : Claims) (jti : String)
      (user_id : ℕ)
      → tokens.decode_refresh_token now token ≡ some payload
      → present payload.jti ≡ some jti
      → payload.sub ≡ some user_id
      → is_token_blacklisted now jti w.redis ≡ true
      → refresh tokens ttl_days now token drawn w
        ≡ (err refused, apply_refresh_session_rls user_id w)
  unfolding refresh apply_refresh_session_rls
  blacklisted-refused now token drawn w payload jti user_id d j s b = ground (arith, d, j, s, b)

  -- A refresh past its guards.
  refresh-redis :
      (now : ℕ) (token : String) (drawn : Drawn) (w : World) (payload : Claims) (jti : String)
      (user_id : ℕ) (row : ℕ × RefreshSession) (user : User)
      → tokens.decode_refresh_token now token ≡ some payload
      → present payload.jti ≡ some jti
      → payload.sub ≡ some user_id
      → is_token_blacklisted now jti w.redis ≡ false
      → by_token_hash (tokens.sha256 token) w.db.refresh_sessions ≡ some row
      → is_some row.1.revoked_at ≡ false
      → ltb row.1.expires_at now ≡ false
      → find row.1.user_id w.db.users ≡ some user
      → is_active_user user ≡ true
      → (refresh tokens ttl_days now token drawn w).1.redis
        ≡ redis_set now (blacklist_key jti) 1 (ttl_days * day) w.redis
  unfolding refresh detect_reuse apply_refresh_session_rls blacklist_token
  refresh-redis now token drawn w payload jti user_id row user d j s fresh r live early u active =
      ground (arith, d, j, s, fresh, r, live, early, u, active)

  record Passed (now : ℕ) (token jti : String) (w : World) : Type 0 where
    fresh : is_token_blacklisted now jti w.redis ≡ false
    row : ℕ × RefreshSession
    found_row : by_token_hash (tokens.sha256 token) w.db.refresh_sessions ≡ some row
    live : is_some row.1.revoked_at ≡ false
    early : ltb row.1.expires_at now ≡ false
    user : User
    found_user : find row.1.user_id w.db.users ≡ some user
    active : is_active_user user ≡ true

  -- A refresh that succeeds has passed its guards.
  refresh-guards :
      (now : ℕ) (token : String) (drawn : Drawn) (w : World) (payload : Claims) (jti : String)
      (user_id : ℕ)
      → tokens.decode_refresh_token now token ≡ some payload
      → present payload.jti ≡ some jti
      → payload.sub ≡ some user_id
      → Raised (refresh tokens ttl_days now token drawn w).0 ⊎ Passed now token jti w
  unfolding refresh detect_reuse apply_refresh_session_rls blacklist_token
  refresh-guards now token drawn w payload jti user_id d j s =
      elim (Bool-cases (is_token_blacklisted now jti w.redis)) [
        | inl listed ↦ inl (refused, ground (arith, d, j, s, listed))
        | inr fresh ↦
            elim (Option-cases (by_token_hash (tokens.sha256 token) w.db.refresh_sessions)) [
              | inl none_is ↦ inl (refused, ground (arith, d, j, s, fresh, none_is))
              | inr (row, r) ↦ elim (Bool-cases (is_some row.1.revoked_at)) [
                | inl dead ↦ inl (refused, ground (arith, d, j, s, fresh, r, dead))
                | inr live ↦ elim (Bool-cases (ltb row.1.expires_at now)) [
                  | inl late ↦ inl (refused, ground (arith, d, j, s, fresh, r, live, late))
                  | inr early ↦ elim (Option-cases (find row.1.user_id w.db.users)) [
                    | inl none_is ↦
                        inl (refused, ground (arith, d, j, s, fresh, r, live, early, none_is))
                    | inr (user, u) ↦ elim (Bool-cases (is_active_user user)) [
                      | inr gone ↦
                          inl (refused, ground (arith, d, j, s, fresh, r, live, early, u, gone))
                      | inl active ↦ inr record {
                        fresh = fresh;
                        row = row;
                        found_row = r;
                        live = live;
                        early = early;
                        user = user;
                        found_user = u;
                        active = active;
                      }
                    ]
                  ]
                ]
              ]
            ]
      ]

  -- A refresh that succeeds leaves the token's id on the blacklist.
  blacklists :
      (now : ℕ) (token : String) (drawn drawn' : Drawn) (w : World) (payload : Claims)
      (jti : String) (user_id : ℕ)
      → tokens.decode_refresh_token now token ≡ some payload
      → present payload.jti ≡ some jti
      → payload.sub ≡ some user_id
      → (refresh tokens ttl_days now token drawn w).0 ≡ ok drawn'
      → (refresh tokens ttl_days now token drawn w).1.redis
        ≡ redis_set now (blacklist_key jti) 1 (ttl_days * day) w.redis
  blacklists now token drawn drawn' w payload jti user_id d j s h =
      let p = passed_guards (refresh-guards now token drawn w payload jti user_id d j s) h in
      refresh-redis now token drawn w payload jti user_id p.row p.user d j s p.fresh p.found_row
        p.live p.early p.found_user p.active

  -- What a refresh that succeeds has read from its token.
  pub claims_of :
      (now : ℕ) (token : String) (drawn drawn' : Drawn) (w : World)
      → (refresh tokens ttl_days now token drawn w).0 ≡ ok drawn'
      → (payload : Claims) × (jti : String) × (user_id : ℕ) × (tokens.decode_refresh_token now token
          ≡ some payload)
        × (present payload.jti ≡ some jti)
        × (payload.sub ≡ some user_id)
  unfolding refresh
  claims_of now token drawn drawn' w h =
      elim (Option-cases (tokens.decode_refresh_token now token)) [
        | inl none_is ↦ absurd (ground (arith, none_is))
        | inr (payload, d) ↦ elim (Option-cases payload.sub) [
          | inl none_is ↦ absurd (ground (arith, d, none_is))
          | inr (user_id, s) ↦ elim (Option-cases (present payload.jti)) [
            | inl none_is ↦ absurd (ground (arith, d, s, none_is))
            | inr (jti, j) ↦ (payload, jti, user_id, d, j, s)
          ]
        ]
      ]

  -- A refresh token works once: after a refresh with it that succeeded, the next
  -- refresh with it within the lifetime of refresh tokens is refused and leaves the tables and the
  -- keys as they are.
  pub refresh_once :
      (now later : ℕ) (token : String) (drawn drawn' again : Drawn) (w : World) (payload : Claims)
      → (refresh tokens ttl_days now token drawn w).0 ≡ ok drawn'
      → tokens.decode_refresh_token later token ≡ some payload
      → later < now + ttl_days * day * second
      → (user_id : ℕ) × (refresh tokens ttl_days later token again
            (refresh tokens ttl_days now token drawn w).1
          ≡ (
            err refused,
            apply_refresh_session_rls user_id (refresh tokens ttl_days now token drawn w).1,
          ))
  refresh_once now later token drawn drawn' again w payload h d alive =
      let (payload', jti, user_id, d', j, s) = claims_of now token drawn drawn' w h in
      let same = tokens.same_claims now later token payload' payload d' d in
      (
        user_id,
        blacklisted-refused later token again (refresh tokens ttl_days now token drawn w).1 payload'
            jti user_id (rw (same) d) j s
            (is_listed now later jti w.redis (refresh tokens ttl_days now token drawn w).1.redis
              alive (blacklists now token drawn drawn' w payload' jti user_id d' j s h)),
      )
