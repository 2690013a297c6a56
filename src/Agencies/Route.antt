-- ===== src/Agencies/Route.antt =====
-- `deactivate_employee` of backend/app/auth/router.py: the platform's own deactivation, which also
-- ends the sessions. Its rate limit and its audit log are left out.
use akar_ai.Prelude.{ℕ, String, true, ◌≡◌, refl, some, [], ◌∷◌, contains, nat_key}
use akar_ai.Exec.{app_exception, ok, Exec, lift, gets, modify, or_raise, ◌>>=◌, ◌>>◌}
use akar_ai.Table.{find, put, find-put_self}
use akar_ai.Redis.{Redis}
use akar_ai.Tenant.{Actor, require_permission}
use akar_ai.Auth.State.{Tokens}
use akar_ai.Auth.Sessions.{revoke_user_all_sessions}
use akar_ai.Agencies.State.{AgencyEmployeeMembership, Roster}
use akar_ai.Agencies.Service.{deactivate_membership}

pub record Desk : Type 0 where
  pub roster : Roster
  pub redis : Redis

-- `revoke_user_all_sessions` on the tables and the Redis of the request.
unfoldable pub end_sessions : Tokens → ℕ → ℕ → ℕ → String → Desk → Desk
end_sessions tokens ttl_days now user_id reason desk =
    let w =
      revoke_user_all_sessions tokens ttl_days now user_id reason
        (record { db = desk.roster.db; redis = desk.redis }) in
    record { roster = record desk.roster { db = w.db }; redis = w.redis }

unfoldable pub deactivate_employee_route :
    Tokens → ℕ → ℕ → Actor → ℕ → String → Exec Desk (Unit {0})
deactivate_employee_route tokens ttl_days now actor membership_id reason = do
  allowed ← lift (require_permission ("auth:employee_deactivate" ∷ []) actor)
  found ← gets (λ desk. find membership_id desk.roster.memberships)
  membership ← or_raise (app_exception 404 "Membership not found" "MEMBERSHIP_NOT_FOUND") found
  modify λ desk. record desk {
    roster = record desk.roster {
      memberships =
          put membership_id (deactivate_membership now actor.id reason membership)
            desk.roster.memberships;
    };
  }
  modify (end_sessions tokens ttl_days now membership.user_id "employee_deactivation")

-- The route deactivates the membership of whichever agency: it asks the actor for the permission and
-- not for a tenant.
pub deactivate_employee_route-any_tenant :
    (tokens : Tokens) (ttl_days now : ℕ) (actor : Actor) (id : ℕ) (reason : String)
    (m : AgencyEmployeeMembership) (desk : Desk)
    → contains actor.permissions "auth:employee_deactivate" ≡ true
    → find id desk.roster.memberships ≡ some m
    → let result = deactivate_employee_route tokens ttl_days now actor id reason desk in
      (result.0 ≡ ok tt)
      × (find id result.1.roster.memberships ≡ some (deactivate_membership now actor.id reason m))
unfolding deactivate_employee_route require_permission end_sessions
deactivate_employee_route-any_tenant tokens ttl_days now actor id reason m desk permitted found =
    rw (permitted, found, find-put_self) (refl, refl)
