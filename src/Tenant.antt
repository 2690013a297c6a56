-- ===== src/Tenant.antt =====
-- backend/app/common/tenant.py, and the role and permission checks of
-- backend/app/auth/dependencies.py.
pub mod Laws
use akar_ai.Prelude.{
  ℕ, String, Bool, true, false, not, ◌&&◌, Option, none, some, List, [], ◌∷◌, some_is, contains,
  if◌then◌else◌, format,
}
use akar_ai.Exec.{Error, permission, forbidden, Result, ok, err}

pub record TenantContext : Type 0 where
  pub actor_id : Option ℕ
  pub role : Option String
  pub permissions : List String
  pub tenant_id : Option ℕ
  pub membership_id : Option ℕ
  pub is_platform_actor : Bool

abbrev is_none {ℓ} : {A : Type ℓ} → Option A → Bool
is_none none = true
is_none (some a) = false

check_tenant : TenantContext → Result TenantContext
check_tenant c =
    if is_none c.tenant_id && not c.is_platform_actor
    then err (permission "Tenant-scoped access requires an active tenant membership")
    else if is_none c.role
    then err (permission "Actor role is required for tenant-scoped access")
    else ok c

unfoldable pub require_tenant : Option TenantContext → Result TenantContext
unfolding check_tenant
require_tenant none = err (permission "Tenant context is required for this operation")
require_tenant (some c) = check_tenant c

unfoldable pub ensure_tenant_match : Option TenantContext → ℕ → Result (Unit {0})
ensure_tenant_match none resource_tenant_id = err (permission "Tenant context required")
ensure_tenant_match (some c) resource_tenant_id =
    if c.is_platform_actor
    then ok tt
    else if some_is c.tenant_id resource_tenant_id
    then ok tt
    else err (permission "Cross-tenant access denied")

-- The actor of a request, as `get_current_actor` returns it.
pub record Actor : Type 0 where
  pub id : ℕ
  pub role : Option String
  pub permissions : List String

-- The loop of `require_permission`.
unfoldable pub require_permission : List String → Actor → Result Actor
require_permission [] actor = ok actor
require_permission (perm ∷ perms) actor =
    let later = require_permission perms actor in
    if contains actor.permissions perm
    then later
    else err (forbidden (format ("Missing required permission: " ∷ perm ∷ [])))

-- `actor_role not in roles`
abbrev role_in : List String → Option String → Bool
role_in roles none = false
role_in roles (some r) = contains roles r

abbrev role_text : Option String → String
role_text none = "None"
role_text (some r) = r

unfoldable pub require_role : List String → Actor → Result Actor
require_role roles actor =
    if role_in roles actor.role
    then ok actor
    else err (
        forbidden
          (format ("Role '" ∷ role_text actor.role ∷ "' is not authorized for this action" ∷ [])))

abbrev and_then {ℓ κ} : {A : Type ℓ} {B : Type κ} → Result A → (A → Result B) → Result B
and_then (ok a) f = f a
and_then (err e) f = err e

unfoldable pub require_platform_dashboard_access : Actor → Result Actor
unfolding require_role require_permission
require_platform_dashboard_access actor =
    and_then (require_role ("platform_admin" ∷ []) actor)
      (require_permission ("platform:dashboard_read" ∷ []))
