-- ===== src/Tests/Auth.antt =====
-- Runs of the session operations.
use akar_ai.Prelude.{
  ℕ, ◌≡◌, ◌≢◌, ◌*◌, refl, Option, none, some, [], ◌∷◌, arith, nat_key, text_key, second, str_eq,
  format,
}
use akar_ai.Exec.{ok, err}
use akar_ai.Table.{find, put, count}
use akar_ai.Database.{RefreshSession}
use akar_ai.Redis.{redis_set, redis_get}
use akar_ai.Auth.State.{
  World, Claims, Tokens, Drawn, day, is_token_blacklisted, blacklist_token,
  invalidate_user_sessions, by_token_hash, is_active_session, apply_refresh_session_rls,
}
use akar_ai.Auth.Sessions.{
  refused, detect_reuse, refresh, reset_password, get_current_user, world_transaction,
}
use akar_ai.Auth.Revocation.{refresh_once}
use akar_ai.Auth.Invalidation.{reset_password_ends_sessions, reuse_revocation_is_rolled_back}
use akar_ai.Tests.Data.{buyer, agency}

abbrev claims : Claims
claims = record { jti = some "j"; sub = some 9; iat = 1 }

same_words :
    (p q : Claims)
    → ◌≡◌ {A = Option Claims} (some claims) (some p)
    → ◌≡◌ {A = Option Claims} (some claims) (some q)
    → p ≡ q
same_words p q d e = ground (arith, d, e)

-- Every token is the one of user 9, and the hash of a word is the word with a mark.
abbrev toy : Tokens
toy = record {
  decode_refresh_token = λ now token. some claims;
  decode_access_token = λ now token. some claims;
  sha256 = λ token. token;
  verify_password = λ plain hashed. str_eq (format ("h:" ∷ plain ∷ [])) hashed;
  hash_password = λ plain. format ("h:" ∷ plain ∷ []);
  same_claims = λ n m token p q d e. same_words p q d e;
}

abbrev session : RefreshSession
session = record {
  user_id = 9;
  token_hash = "t";
  family_id = "f";
  issued_at = 1;
  expires_at = 7 * day * second;
  last_used_at = none;
  revoked_at = none;
  revocation_reason = none;
  replaced_by_session_id = none;
}

abbrev signed_in : World
signed_in = record { db = record agency { refresh_sessions = (4, session) ∷ [] }; redis = [] }

abbrev drawn : Drawn
drawn = record { session_id = 5; access_token = "a2"; refresh_token = "t2" }

first_refresh : (refresh toy 7 100 "t" drawn signed_in).0 ≡ ok drawn
unfolding refresh detect_reuse apply_refresh_session_rls is_token_blacklisted redis_get find put
    by_token_hash blacklist_token redis_set
first_refresh = refl

refresh_once_example :
    (user_id : ℕ) × (refresh toy 7 200 "t" drawn (refresh toy 7 100 "t" drawn signed_in).1
      ≡ (err refused, apply_refresh_session_rls user_id (refresh toy 7 100 "t" drawn signed_in).1))
refresh_once_example =
    refresh_once toy 7 100 200 "t" drawn drawn drawn signed_in claims first_refresh refl
      (omega arith)

reset_now : (reset_password toy 7 100 9 "old" "new" signed_in).0 ≡ ok tt
unfolding reset_password find
reset_now = refl

reset_password_ends_sessions_example :
    (count
        (is_active_session 9)
        (reset_password toy 7 100 9 "old" "new" signed_in).1.db.refresh_sessions
      ≡ 0)
    × ((get_current_user toy 7 200 "a" (reset_password toy 7 100 9 "old" "new" signed_in).1).0
        ≢ ok (9, buyer))
reset_password_ends_sessions_example =
    reset_password_ends_sessions toy 7 100 200 9 "old" "new" signed_in tt "a" claims (9, buyer)
      reset_now refl refl (omega arith) (omega arith)

abbrev stale : World
stale = record {
  db = record agency { refresh_sessions = (4, record session { revoked_at = some 50 }) ∷ [] };
  redis = [];
}

reuse_revocation_is_rolled_back_example :
    world_transaction (refresh toy 7 100 "t" drawn) stale
    ≡ (err refused, record (invalidate_user_sessions 100 9 stale) { db = stale.db })
reuse_revocation_is_rolled_back_example =
    reuse_revocation_is_rolled_back toy 7 100 "t" drawn stale claims "j" 9 4 50
      (record session { revoked_at = some 50 }) refl refl refl
      (unfold is_token_blacklisted redis_get find in refl) (unfold by_token_hash in refl) refl
