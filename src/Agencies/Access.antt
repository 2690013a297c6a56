-- ===== src/Agencies/Access.antt =====
-- An employee's access to an agency stands and falls with an active membership.
use akar_ai.Prelude.{
  ℕ, true, false, ◌≡◌, refl, ◌⊎◌, inl, inr, Option, some, [], ◌∷◌, arith, str_is, nat_beq_iff,
  str_eq_iff, nat_key, Option-cases, Bool-cases,
}
use akar_ai.Exec.{permission, ok, err}
use akar_ai.Table.{Table, find, put, select, count, IsKeyed, count-put_old}
use akar_ai.Rows.{select-none}
use akar_ai.Tenant.{TenantContext, Actor, require_tenant, ensure_tenant_match}
use akar_ai.Tenant.Laws.{ensure_tenant_match_iff}
use akar_ai.Agencies.State.{AgencyEmployeeMembership, Roster, is_active_of, resolve_tenant_context}
use akar_ai.Agencies.Service.{deactivate_employee}

-- An active membership of a user in a tenant.
pub record IsEmployed (user_id tenant_id : ℕ) (memberships : Table ℕ AgencyEmployeeMembership)
    : Type 0 where
  pub id : ℕ
  pub membership : AgencyEmployeeMembership
  pub found : find id memberships ≡ some membership
  pub of_user : membership.user_id ≡ user_id
  pub active : membership.status ≡ "active"
  pub of_tenant : membership.agency_tenant_id ≡ tenant_id

resolved_tenant-IsEmployed :
    (actor : Actor) (t : ℕ) (memberships : Table ℕ AgencyEmployeeMembership)
    → IsKeyed memberships
    → (resolve_tenant_context actor memberships).tenant_id ≡ some t
    → IsEmployed actor.id t memberships
unfolding resolve_tenant_context select find
resolved_tenant-IsEmployed actor t [] keyed h = absurd (ground (arith, h))
resolved_tenant-IsEmployed actor t ((k, m) ∷ memberships) (new, keyed) h =
    elim (Bool-cases (is_active_of actor.id m)) [
      | inl here ↦ record {
        id = k;
        membership = m;
        found = ground (arith, nat_beq_iff k k);
        of_user = ground (arith, here, nat_beq_iff m.user_id actor.id);
        active = ground (arith, here, str_eq_iff m.status "active");
        of_tenant = ground (arith, here, h);
      }
      | inr elsewhere ↦
          let later =
            resolved_tenant-IsEmployed actor t memberships keyed (ground (arith, elsewhere, h)) in
          record {
            id = later.id;
            membership = later.membership;
            found = ground (arith, later.found, new, nat_beq_iff k later.id);
            of_user = later.of_user;
            active = later.active;
            of_tenant = later.of_tenant;
          }
    ]

-- The tenant check lets an actor through to a tenant's resource only if the actor is a platform
-- administrator or has an active membership in that tenant.
pub tenant_access-IsEmployed :
    (actor : Actor) (t : ℕ) (memberships : Table ℕ AgencyEmployeeMembership)
    → IsKeyed memberships
    → ensure_tenant_match (some (resolve_tenant_context actor memberships)) t ≡ ok tt
    → (str_is actor.role "platform_admin" ≡ true) ⊎ IsEmployed actor.id t memberships
unfolding resolve_tenant_context
tenant_access-IsEmployed actor t memberships keyed passed =
    elim ((ensure_tenant_match_iff (resolve_tenant_context actor memberships) t).0 passed) [
      | inl platform ↦ inl platform
      | inr own ↦ inr (resolved_tenant-IsEmployed actor t memberships keyed own)
    ]

deactivate_employee-memberships :
    (tenant : Option TenantContext) (id : ℕ) (r : Roster) (u : Unit {0})
    → (deactivate_employee tenant id r).0 ≡ ok u
    → (m : AgencyEmployeeMembership) × (find id r.memberships ≡ some m)
      × (ensure_tenant_match tenant m.agency_tenant_id ≡ ok tt)
      × ((deactivate_employee tenant id r).1.memberships
          ≡ put id (record m { status = "deactivated" }) r.memberships)
unfolding deactivate_employee
deactivate_employee-memberships tenant id r u done = elim (Option-cases (find id r.memberships)) [
  | inl missing ↦ absurd (ground (arith, missing, done))
  | inr (m, e) ↦ (m, e, ground (arith, e, done), ground (arith, e, done))
]

-- After an employee's only active membership was deactivated, the employee's next request has no
-- tenant, and every operation that requires one is refused.
pub deactivate_employee-ends_access :
    (tenant : Option TenantContext) (id : ℕ) (m : AgencyEmployeeMembership) (actor : Actor)
    (r : Roster)
    → find id r.memberships ≡ some m
    → m.user_id ≡ actor.id
    → m.status ≡ "active"
    → count (is_active_of actor.id) r.memberships ≡ 1
    → str_is actor.role "platform_admin" ≡ false
    → (deactivate_employee tenant id r).0 ≡ ok tt
    → require_tenant
        (some (resolve_tenant_context actor (deactivate_employee tenant id r).1.memberships))
      ≡ err (permission "Tenant-scoped access requires an active tenant membership")
unfolding resolve_tenant_context require_tenant
deactivate_employee-ends_access tenant id m actor r found own active only role done =
    let (m2, found2, matched, wrote) = deactivate_employee-memberships tenant id r tt done in
    let gone : AgencyEmployeeMembership = record m { status = "deactivated" } in
    let same : m2 ≡ m = ground (arith, found, found2) in
    let none_left : count (is_active_of actor.id) (put id gone r.memberships) ≡ 0 = ground (
      arith,
      count-put_old (is_active_of actor.id) id gone m r.memberships found,
      only,
      own,
      active,
      nat_beq_iff m.user_id actor.id,
      str_eq_iff m.status "active",
    ) in
    rw
      (wrote, same, select-none (is_active_of actor.id) (put id gone r.memberships) none_left, role)
      refl
