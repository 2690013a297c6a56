-- ===== src/Agencies/State.antt =====
-- The rows of backend/app/agencies/models.py with the queries of repository.py, and
-- `_resolve_tenant_context`, which reads an actor's tenant from the memberships.
use akar_ai.Prelude.{
  ℕ, String, Bool, false, ◌&&◌, ◌==◌, Option, none, some, [], ◌∷◌, str_eq, str_is, nat_key,
  if◌then◌else◌,
}
use akar_ai.Exec.{Result, Exec}
use akar_ai.Table.{Table, find, select}
use akar_ai.Rows.{one_or_none}
use akar_ai.Database.{Db}
use akar_ai.Tenant.{TenantContext, Actor}

pub record AgencyTenant : Type 0 where
  pub name : String
  pub status : String

pub record AgencyProfile : Type 0 where
  pub agency_tenant_id : ℕ
  pub display_name : String
  pub legal_name : Option String
  pub description : Option String
  pub phone : Option String
  pub email : Option String
  pub website_url : Option String
  pub address : Option String
  pub city : Option String
  pub country : Option String
  pub status : String

pub record AgencyEmployeeMembership : Type 0 where
  pub agency_tenant_id : ℕ
  pub user_id : ℕ
  pub role_id : ℕ
  pub status : String
  pub display_name : Option String
  pub work_email : Option String
  pub deactivated_at : Option ℕ
  pub deactivated_by_user_id : Option ℕ
  pub deactivation_reason : Option String

-- The tables that the service uses; of a role only its slug.
pub record Roster : Type 0 where
  pub db : Db
  pub tenants : Table ℕ AgencyTenant
  pub profiles : Table ℕ AgencyProfile
  pub memberships : Table ℕ AgencyEmployeeMembership
  pub roles : Table ℕ String

-- An action on the tables of `Db`.
abbrev pub on_db : {A : Type 0} → Exec Db A → Exec Roster A
on_db m r = ((m r.db).0, record r { db = (m r.db).1 })

-- `AgencyProfileRepository.get_by_tenant`
unfoldable pub get_by_tenant : ℕ → Table ℕ AgencyProfile → Result (Option (ℕ × AgencyProfile))
get_by_tenant tenant_id profiles =
    one_or_none (select (λ p. p.agency_tenant_id == tenant_id) profiles)

-- `select(Role).where(Role.slug == slug)`; slugs are unique
unfoldable pub role_by_slug : String → Table ℕ String → Option ℕ
role_by_slug slug [] = none
role_by_slug slug ((id, own) ∷ roles) = if str_eq own slug then some id else role_by_slug slug roles

abbrev pub is_active_of : ℕ → AgencyEmployeeMembership → Bool
is_active_of user_id m = m.user_id == user_id && str_eq m.status "active"

abbrev first : Table ℕ AgencyEmployeeMembership → Option (ℕ × AgencyEmployeeMembership)
first [] = none
first (row ∷ _) = some row

abbrev tenant_of : Option (ℕ × AgencyEmployeeMembership) → Option ℕ
tenant_of none = none
tenant_of (some (id, m)) = some m.agency_tenant_id

abbrev id_of : Option (ℕ × AgencyEmployeeMembership) → Option ℕ
id_of none = none
id_of (some (id, m)) = some id

-- `_resolve_tenant_context`. Its query has no order: of several active memberships it takes the one
-- that comes first.
unfoldable pub resolve_tenant_context : Actor → Table ℕ AgencyEmployeeMembership → TenantContext
resolve_tenant_context actor memberships =
    let membership = first (select (is_active_of actor.id) memberships) in
    record {
      actor_id = some actor.id;
      role = actor.role;
      permissions = actor.permissions;
      tenant_id = tenant_of membership;
      membership_id = id_of membership;
      is_platform_actor = str_is actor.role "platform_admin";
    }

-- `AgenciesService.is_tenant_active`
abbrev is_active_tenant : Option AgencyTenant → Bool
is_active_tenant none = false
is_active_tenant (some tenant) = str_eq tenant.status "active"

unfoldable pub is_tenant_active : ℕ → Table ℕ AgencyTenant → Bool
is_tenant_active tenant_id tenants = is_active_tenant (find tenant_id tenants)
