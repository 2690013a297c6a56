-- ===== src/Tenant/Laws.antt =====
-- What the checks of tenant.py let through.
use akar_ai.Prelude.{Option, none, sym, ap, ℕ, ◌≡◌, ◌⊎◌, ◌↔◌, true, some, arith}
use akar_ai.Exec.{ok}
use akar_ai.Tenant.{TenantContext, require_tenant, ensure_tenant_match}

-- An operation is let through to a resource exactly for a platform actor and for an actor whose
-- tenant is the resource's.
pub ensure_tenant_match_iff :
    (c : TenantContext) (t : ℕ)
    → (ensure_tenant_match (some c) t ≡ ok tt)
      ↔ ((c.is_platform_actor ≡ true) ⊎ (c.tenant_id ≡ some t))
unfolding ensure_tenant_match
ensure_tenant_match_iff c t = ground arith

pub require_tenant-same :
    (ctx actor : TenantContext) → require_tenant (some ctx) ≡ ok actor → actor ≡ ctx
unfolding require_tenant
require_tenant-same ctx actor passed = ground arith

pub require_tenant-context :
    (tenant : Option TenantContext) (ctx : TenantContext)
    → require_tenant tenant ≡ ok ctx
    → tenant ≡ some ctx
require_tenant-context none ctx h = absurd (unfold require_tenant in ground arith)
require_tenant-context (some own) ctx h = ap (λ c. some c) (sym (require_tenant-same own ctx h))
