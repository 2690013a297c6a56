-- ===== src/Auth/Login.antt =====
-- Signing in and ending one session: `login`, `register` and `revoke_session` of auth/service.py.
use akar_ai.Prelude.{
  ℕ, String, true, not, ◌||◌, ◌≡◌, ◌↔◌, ◌==◌, refl, Option, none, some, [], ◌∷◌, arith, str_eq,
  str_is, str_eq_iff, str, nat_key, nat_beq_iff, text_key, Option-cases, Bool-cases, inl, inr,
  if◌then◌else◌, ◌*◌,
}
use akar_ai.Exec.{
  Exec, Error, ok, err, app_exception, pure, gets, modify, or_raise, raise_if, ◌>>=◌, ◌>>◌,
}
use akar_ai.Table.{Table, find, put}
use akar_ai.Database.{User, RefreshSession}
use akar_ai.Auth.State.{
  World, Tokens, Drawn, present, day, is_some, blacklist_token, by_token_hash, revoked,
  set_sessions, apply_refresh_session_rls,
}
use akar_ai.Auth.Sessions.{refused, issued, expiry, detect_reuse, refresh}

-- `get_user_by_email`
unfoldable pub by_email : String → Table ℕ User → Option (ℕ × User)
by_email email [] = none
by_email email ((id, user) ∷ t) =
    if str_is user.email email then some (id, user) else by_email email t

abbrev set_users : Table ℕ User → World → World
set_users t w = record w { db = record w.db { users = t } }

-- On `None` the router raises.
abbrev pub invalid_credentials : Error
invalid_credentials = app_exception 401 "Invalid credentials" "INVALID_CREDENTIALS"

module _ (tokens : Tokens) (ttl_days : ℕ) where
  -- `_issue_session` without a family: the family is drawn too.
  abbrev start_session : ℕ → ℕ → String → Drawn → World → World
  start_session now user_id family_id drawn w =
      set_sessions
        (put drawn.session_id
          (issued (expiry tokens ttl_days) user_id (tokens.sha256 drawn.refresh_token) family_id
            now)
          w.db.refresh_sessions)
        w

  unfoldable pub login : ℕ → String → String → String → Drawn → Exec World Drawn
  login now email password family_id drawn = do
    found ← gets (λ w. by_email email w.db.users)
    row ← or_raise invalid_credentials found
    raise_if (not row.1.is_active || not (str_eq row.1.status "active")) invalid_credentials
    raise_if (not (tokens.verify_password password row.1.password_hash)) invalid_credentials
    modify λ w. set_users (put row.0 (record row.1 { last_login_at = some now }) w.db.users) w
    modify (start_session now row.0 family_id drawn)
    pure drawn

  -- `register`; `user_role` is the id of the role with the slug "user", if there is one.
  unfoldable pub register :
      Option ℕ → ℕ → ℕ → String → String → String → String → Drawn → Exec World Drawn
  register user_role now user_id email password name family_id drawn = do
    found ← gets (λ w. by_email email w.db.users)
    raise_if (is_some found) (app_exception 409 "User with this email already exists" "USER_EXISTS")
    let new_user : User = record {
      email = some email;
      name = some name;
      phone = none;
      password_hash = tokens.hash_password password;
      role_id = user_role;
      is_active = true;
      status = "active";
      last_login_at = none;
      password_changed_at = none;
    }
    modify λ w. set_users (put user_id new_user w.db.users) w
    modify (start_session now user_id family_id drawn)
    pure drawn

  -- On `False` the router raises.
  unfoldable pub revoke_session : ℕ → ℕ → String → ℕ → Exec World (Unit {0})
  revoke_session now session_id reason revoker_user_id = do
    modify (apply_refresh_session_rls revoker_user_id)
    found ← gets (λ w. find session_id w.db.refresh_sessions)
    target ←
        or_raise (app_exception 404 "Session not found or not accessible" "SESSION_NOT_FOUND") found
    modify λ w. set_sessions (put session_id (revoked now reason target) w.db.refresh_sessions) w
    modify (blacklist_token now (ttl_days * day) (str session_id))

  -- A known user signs in exactly when the account is active and the password is right.
  pub login-ok_iff :
      (now id : ℕ) (email password family_id : String) (drawn : Drawn) (w : World) (user : User)
      → by_email email w.db.users ≡ some (id, user)
      → ((login now email password family_id drawn w).0 ≡ ok drawn) ↔ (
          (user.is_active ≡ true)
          × (user.status ≡ "active")
          × (tokens.verify_password password user.password_hash ≡ true))
  unfolding login
  login-ok_iff now id email password family_id drawn w user e =
      ground (arith, e, str_eq_iff user.status "active")

  revoke_session-writes :
      (now session_id revoker_user_id : ℕ) (reason : String) (w : World) (s : RefreshSession)
      → find session_id w.db.refresh_sessions ≡ some s
      → (revoke_session now session_id reason revoker_user_id w).1.db.refresh_sessions
        ≡ put session_id (revoked now reason s) w.db.refresh_sessions
  unfolding revoke_session apply_refresh_session_rls blacklist_token
  revoke_session-writes now session_id revoker_user_id reason w s e = ground (arith, e)

-- The session that is found has the hash that was looked for.
by_token_hash-hash :
    (hash : String) (t : Table ℕ RefreshSession) (id : ℕ) (s : RefreshSession)
    → by_token_hash hash t ≡ some (id, s)
    → s.token_hash ≡ hash
unfolding by_token_hash
by_token_hash-hash hash [] id s at = absurd (ground arith)
by_token_hash-hash hash ((j, u) ∷ t) id s at = elim (Bool-cases (str_eq u.token_hash hash)) [
  | inl same ↦ ground (arith, at, same, str_eq_iff u.token_hash hash)
  | inr other ↦ by_token_hash-hash hash t id s (ground (arith, at, other))
]

-- A row that is written under its own key is found where the old one was.
by_token_hash-put :
    (hash : String) (id : ℕ) (s s' : RefreshSession) (t : Table ℕ RefreshSession)
    → find id t ≡ some s
    → by_token_hash hash t ≡ some (id, s)
    → s'.token_hash ≡ s.token_hash
    → by_token_hash hash (put id s' t) ≡ some (id, s')
unfolding by_token_hash find put
by_token_hash-put hash id s s' [] found at same = absurd (ground (arith, at))
by_token_hash-put hash id s s' ((j, u) ∷ t) found at same =
    let hashed = by_token_hash-hash hash ((j, u) ∷ t) id s at in
    elim (Bool-cases (j == id)) [
      | inl here ↦ rw here (
          ground
            (arith, here, found, hashed, same, nat_beq_iff j id, str_eq_iff s'.token_hash hash))
      | inr other ↦ elim (Bool-cases (str_eq u.token_hash hash)) [
        | inl first ↦ absurd (ground (arith, first, at, other, nat_beq_iff j id))
        | inr later ↦
            let found' : find id t ≡ some s = ground (arith, found, other) in
            let at' : by_token_hash hash t ≡ some (id, s) = ground (arith, at, later) in
            rw (other, later) (by_token_hash-put hash id s s' t found' at' same)
      ]
    ]

module _ (tokens : Tokens) (ttl_days : ℕ) where
  revoked-refused :
      (later : ℕ) (token : String) (drawn : Drawn) (w : World) (id at : ℕ) (s : RefreshSession)
      → by_token_hash (tokens.sha256 token) w.db.refresh_sessions ≡ some (id, s)
      → s.revoked_at ≡ some at
      → (refresh tokens ttl_days later token drawn w).0 ≡ err refused
  unfolding refresh detect_reuse apply_refresh_session_rls
  revoked-refused later token drawn w id at s found rev =
      elim (Option-cases (tokens.decode_refresh_token later token)) [
        | inl none_is ↦ ground (arith, none_is)
        | inr (payload, d) ↦ elim (Option-cases payload.sub) [
          | inl none_is ↦ ground (arith, d, none_is)
          | inr (user_id, p) ↦ elim (Option-cases (present payload.jti)) [
            | inl none_is ↦ ground (arith, d, p, none_is)
            | inr (jti, j) ↦ ground (arith, d, p, j, found, rev)
          ]
        ]
      ]

  -- After a session was revoked by its id, a refresh with its token is refused at any time.
  pub revoke_session_ends_refresh :
      (now later session_id revoker_user_id : ℕ) (reason token : String) (drawn : Drawn) (w : World)
      (s : RefreshSession)
      → find session_id w.db.refresh_sessions ≡ some s
      → by_token_hash (tokens.sha256 token) w.db.refresh_sessions ≡ some (session_id, s)
      → (refresh tokens ttl_days later token drawn
          (revoke_session tokens ttl_days now session_id reason revoker_user_id w).1).0
        ≡ err refused
  revoke_session_ends_refresh now later session_id revoker_user_id reason token drawn w s found at =
      revoked-refused later token drawn _ session_id now (revoked now reason s)
        (rw (revoke_session-writes tokens ttl_days now session_id revoker_user_id reason w s found)
          (by_token_hash-put (tokens.sha256 token) session_id s (revoked now reason s)
            w.db.refresh_sessions found at refl))
        refl
