-- ===== src/Tests/Agencies.antt =====
-- Runs of the requests on employees.
use akar_ai.Prelude.{ℕ, ◌≡◌, ◌≢◌, ◌⊎◌, refl, true, none, some, [], ◌∷◌, nat_key, str_is}
use akar_ai.Exec.{ok, err, permission}
use akar_ai.Table.{Table, find, count, select, IsKeyed}
use akar_ai.Tenant.{Actor, require_tenant, ensure_tenant_match}
use akar_ai.Agencies.State.{AgencyEmployeeMembership, Roster, resolve_tenant_context}
use akar_ai.Agencies.Service.{deactivate_employee}
use akar_ai.Agencies.Access.{IsEmployed, tenant_access-IsEmployed, deactivate_employee-ends_access}
use akar_ai.Agencies.Isolation.{
  deactivate, handle_employee, DeactivatedByRoute, foreign_membership_stays,
}
use akar_ai.Tests.Data.{agent, agency}

abbrev clerk : Actor
clerk = record { id = 60; role = some "support_employee"; permissions = [] }

abbrev employed : ℕ → AgencyEmployeeMembership
employed tenant_id = record {
  agency_tenant_id = tenant_id;
  user_id = 60;
  role_id = 2;
  status = "active";
  display_name = none;
  work_email = none;
  deactivated_at = none;
  deactivated_by_user_id = none;
  deactivation_reason = none;
}

abbrev staff : Table ℕ AgencyEmployeeMembership
staff = (31, employed 7) ∷ []

abbrev roster : Roster
roster = record { db = agency; tenants = []; profiles = []; memberships = staff; roles = [] }

staff-IsKeyed : IsKeyed staff
unfolding find
staff-IsKeyed = (refl, tt)

clerk_passes : ensure_tenant_match (some (resolve_tenant_context clerk staff)) 7 ≡ ok tt
unfolding ensure_tenant_match resolve_tenant_context select
clerk_passes = refl

tenant_access-IsEmployed_example :
    (str_is clerk.role "platform_admin" ≡ true) ⊎ IsEmployed clerk.id 7 staff
tenant_access-IsEmployed_example = tenant_access-IsEmployed clerk 7 staff staff-IsKeyed clerk_passes

dismissed : (deactivate_employee (some agent) 31 roster).0 ≡ ok tt
unfolding deactivate_employee require_tenant ensure_tenant_match find
dismissed = refl

deactivate_employee-ends_access_example :
    require_tenant (
      some
        (resolve_tenant_context clerk (deactivate_employee (some agent) 31 roster).1.memberships))
    ≡ err (permission "Tenant-scoped access requires an active tenant membership")
deactivate_employee-ends_access_example =
    deactivate_employee-ends_access (some agent) 31 (employed 7) clerk roster (unfold find in refl)
      refl refl (unfold count in refl) refl dismissed

abbrev elsewhere : Roster
elsewhere = record roster { memberships = (31, employed 8) ∷ [] }

foreign_membership_stays_example :
    ((find 31 elsewhere.memberships ≡ some (employed 8))
      → agent.tenant_id ≢ some 8
      → (find 31 (handle_employee (some agent) (deactivate 31) elsewhere).memberships
          ≡ some (employed 8))
        ⊎ DeactivatedByRoute
            (deactivate 31)
            31
            (employed 8)
            (handle_employee (some agent) (deactivate 31) elsewhere).memberships)
    × ((find 31 elsewhere.memberships ≡ none)
        → find 31 (handle_employee (some agent) (deactivate 31) elsewhere).memberships
          ≡ some (employed 8)
        → agent.tenant_id ≡ some 8)
foreign_membership_stays_example =
    foreign_membership_stays agent refl elsewhere (deactivate 31) 31 (employed 8) tt
