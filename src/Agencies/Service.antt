-- ===== src/Agencies/Service.antt =====
-- `AgencyService` of agencies/service.py, and `AgenciesService.deactivate_employee`. The ids of new
-- rows are drawn; the hash of the initial password is given.
use akar_ai.Prelude.{
  ℕ, String, Bool, true, false, not, Option, none, some, List, [], ◌∷◌, str_eq, str_is, str,
  or_else, nat_key, if◌then◌else◌,
}
use akar_ai.Exec.{
  not_found, validation, forbidden, conflict, integrity, Exec, pure, lift, gets, modify, or_raise,
  raise_if, ◌>>=◌, ◌>>◌,
}
use akar_ai.Table.{find, put}
use akar_ai.Database.{User, DomainEventLog, write_domain_event_log}
use akar_ai.Tenant.{TenantContext, require_tenant, ensure_tenant_match}
use akar_ai.Auth.Login.{by_email}
use akar_ai.Agencies.State.{
  AgencyProfile, AgencyEmployeeMembership, Roster, on_db, get_by_tenant, role_by_slug,
}

-- A request body: a field that is missing is `none`, one that is null is `some none`.
pub record ProfileUpdate : Type 0 where
  pub display_name : Option (Option String)
  pub legal_name : Option (Option String)
  pub description : Option (Option String)
  pub phone : Option (Option String)
  pub email : Option (Option String)
  pub website_url : Option (Option String)
  pub address : Option (Option String)
  pub city : Option (Option String)
  pub country : Option (Option String)
  pub status : Option (Option String)

pub record EmployeeCreate : Type 0 where
  pub work_email : Option String
  pub role_slug : Option String
  pub display_name : Option String

-- What `data.get(field)` gives.
pub record EmployeeUpdate : Type 0 where
  pub role_id : Option ℕ
  pub display_name : Option String
  pub work_email : Option String

agency_event :
    String → String → ℕ → Option ℕ → Option ℕ → List (String × Option String) → DomainEventLog
agency_event event_name aggregate_type aggregate_id tenant_id actor_id payload = record {
  event_name = event_name;
  aggregate_type = some aggregate_type;
  aggregate_id = some (str aggregate_id);
  payload = payload;
  agency_tenant_id = tenant_id;
  actor_user_id = actor_id;
}

-- `if field in data and data[field] is not None`
abbrev set_text : Option (Option String) → String → String
set_text none old = old
set_text (some none) old = old
set_text (some (some new)) old = new

unfoldable pub with_profile : ProfileUpdate → AgencyProfile → AgencyProfile
with_profile body profile = record profile {
  display_name = set_text body.display_name profile.display_name;
  legal_name = or_else body.legal_name profile.legal_name;
  description = or_else body.description profile.description;
  phone = or_else body.phone profile.phone;
  email = or_else body.email profile.email;
  website_url = or_else body.website_url profile.website_url;
  address = or_else body.address profile.address;
  city = or_else body.city profile.city;
  country = or_else body.country profile.country;
  status = set_text body.status profile.status;
}

-- The profile that is there, or a new one under the drawn id.
abbrev profile_or_new : ℕ → ℕ → Option (ℕ × AgencyProfile) → ℕ × AgencyProfile
profile_or_new new_id tenant_id (some row) = row
profile_or_new new_id tenant_id none = (
  new_id,
  record {
    agency_tenant_id = tenant_id;
    display_name = "";
    legal_name = none;
    description = none;
    phone = none;
    email = none;
    website_url = none;
    address = none;
    city = none;
    country = none;
    status = "active";
  },
)

-- `not text`
abbrev pub is_blank : Option String → Bool
is_blank none = true
is_blank (some text) = str_eq text ""

abbrev is_some {ℓ} : {A : Type ℓ} → Option A → Bool
is_some none = false
is_some (some a) = true

-- `create_employee` from the new user's row on.
unfoldable pub hire :
    TenantContext → String → ℕ → ℕ → ℕ → EmployeeCreate → Exec Roster AgencyEmployeeMembership
unfolding agency_event write_domain_event_log
hire ctx password_hash new_user_id new_id role_id body = do
  let new_user : User = record {
    email = body.work_email;
    name = body.display_name;
    phone = none;
    password_hash = password_hash;
    role_id = some role_id;
    is_active = true;
    status = "active";
    last_login_at = none;
    password_changed_at = none;
  }
  modify λ r. record r { db = record r.db { users = put new_user_id new_user r.db.users } }
  tenant_id ← or_raise (integrity "agency_tenant_id") ctx.tenant_id
  let membership : AgencyEmployeeMembership = record {
    agency_tenant_id = tenant_id;
    user_id = new_user_id;
    role_id = role_id;
    status = "active";
    display_name = body.display_name;
    work_email = body.work_email;
    deactivated_at = none;
    deactivated_by_user_id = none;
    deactivation_reason = none;
  }
  modify λ r. record r { memberships = put new_id membership r.memberships }
  on_db (
      write_domain_event_log (
        agency_event "agency.employee_added" "employee" new_id ctx.tenant_id ctx.actor_id (
          ("user_id", some (str new_user_id))
          ∷ ("role_id", some (str role_id))
          ∷ ("email", body.work_email)
          ∷ [])))
  pure membership

module _ (tenant : Option TenantContext) where
  unfoldable pub get_profile : Exec Roster AgencyProfile
  get_profile = do
    ctx ← lift (require_tenant tenant)
    tenant_id ← or_raise (not_found "Agency profile not found") ctx.tenant_id
    found ← gets (λ r. get_by_tenant tenant_id r.profiles)
    row ← lift found
    profile ← or_raise (not_found "Agency profile not found") row
    pure profile.1

  unfoldable pub update_profile : ℕ → ProfileUpdate → Exec Roster AgencyProfile
  unfolding agency_event write_domain_event_log
  update_profile new_id body = do
    ctx ← lift (require_tenant tenant)
    raise_if (str_is ctx.role "support_employee")
        (forbidden "Support employees cannot update agency profile")
    tenant_id ← or_raise (integrity "agency_tenant_id") ctx.tenant_id
    found ← gets (λ r. get_by_tenant tenant_id r.profiles)
    row ← lift found
    let old = profile_or_new new_id tenant_id row
    let profile = with_profile body old.1
    modify λ r. record r { profiles = put old.0 profile r.profiles }
    on_db (
        write_domain_event_log
          (agency_event "agency.profile_updated" "agency" tenant_id ctx.tenant_id ctx.actor_id []))
    pure profile

  -- The membership of the methods that name one, after the checks.
  unfoldable pub get_employee : ℕ → Exec Roster AgencyEmployeeMembership
  get_employee employee_id = do
    ctx ← lift (require_tenant tenant)
    found ← gets (λ r. find employee_id r.memberships)
    membership ← or_raise (not_found "Employee not found") found
    lift (ensure_tenant_match tenant membership.agency_tenant_id)
    pure membership

  unfoldable pub create_employee :
      String → ℕ → ℕ → EmployeeCreate → Exec Roster AgencyEmployeeMembership
  create_employee password_hash new_user_id new_id body = do
    ctx ← lift (require_tenant tenant)
    raise_if (str_is ctx.role "support_employee")
        (forbidden "Support employees cannot manage employees")
    raise_if (is_blank body.work_email) (validation "work_email is required")
    raise_if (is_blank body.display_name) (validation "display_name is required")
    raise_if (not (str_is body.role_slug "support_employee"))
        (validation "Only support_employee can be created from this flow")
    existing_user ← gets (λ r. by_email (or_else body.work_email "") r.db.users)
    raise_if (is_some existing_user) (conflict "An account with this email already exists.")
    found_role ← gets (λ r. role_by_slug "support_employee" r.roles)
    role_id ← or_raise (validation "support_employee role is not configured") found_role
    hire ctx password_hash new_user_id new_id role_id body

  unfoldable pub update_employee : ℕ → EmployeeUpdate → Exec Roster AgencyEmployeeMembership
  unfolding agency_event write_domain_event_log
  update_employee employee_id body = do
    ctx ← lift (require_tenant tenant)
    raise_if (str_is ctx.role "support_employee")
        (forbidden "Support employees cannot manage employees")
    found ← gets (λ r. find employee_id r.memberships)
    old ← or_raise (not_found "Employee not found") found
    lift (ensure_tenant_match tenant old.agency_tenant_id)
    let membership : AgencyEmployeeMembership = record old {
      role_id = or_else body.role_id old.role_id;
      display_name = if is_some body.display_name then body.display_name else old.display_name;
      work_email = if is_some body.work_email then body.work_email else old.work_email;
    }
    modify λ r. record r { memberships = put employee_id membership r.memberships }
    on_db (
        write_domain_event_log (
          agency_event "agency.employee_updated" "employee" employee_id ctx.tenant_id ctx.actor_id
            []))
    pure membership

  unfoldable pub deactivate_employee : ℕ → Exec Roster (Unit {0})
  unfolding agency_event write_domain_event_log
  deactivate_employee employee_id = do
    ctx ← lift (require_tenant tenant)
    raise_if (str_is ctx.role "support_employee")
        (forbidden "Support employees cannot manage employees")
    found ← gets (λ r. find employee_id r.memberships)
    old ← or_raise (not_found "Employee not found") found
    lift (ensure_tenant_match tenant old.agency_tenant_id)
    modify λ r. record r {
      memberships = put employee_id (record old { status = "deactivated" }) r.memberships;
    }
    on_db (
        write_domain_event_log (
          agency_event "agency.employee_deactivated" "employee" employee_id ctx.tenant_id
            ctx.actor_id []))

-- `AgenciesService.deactivate_employee`
unfoldable pub deactivate_membership :
    ℕ → ℕ → String → AgencyEmployeeMembership → AgencyEmployeeMembership
deactivate_membership now deactivated_by_user_id reason membership = record membership {
  status = "deactivated";
  deactivated_at = some now;
  deactivated_by_user_id = some deactivated_by_user_id;
  deactivation_reason = some reason;
}
