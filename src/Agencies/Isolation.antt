-- ===== src/Agencies/Isolation.antt =====
-- The writing requests on employees, each in its transaction: agencies do not write one another's
-- memberships, except by the deactivation of auth/router.py.
use akar_ai.Prelude.{
  ℕ, String, true, false, contains, ◌==◌, ◌≡◌, ◌≢◌, refl, ◌⊎◌, inl, inr, Option, none, some, arith,
  nat_beq_iff, nat_key, Option-cases, Bool-cases, str_is, or_else,
}
use akar_ai.Exec.{Error, ok, err, Result-cases, transaction, transaction-cases}
use akar_ai.Table.{Table, find, put, find-put}
use akar_ai.Tenant.{TenantContext, Actor, require_tenant, require_permission, ensure_tenant_match}
use akar_ai.Tenant.Laws.{ensure_tenant_match_iff, require_tenant-same}
use akar_ai.Auth.Login.{by_email}
use akar_ai.Redis.{Redis}
use akar_ai.Auth.State.{Tokens}
use akar_ai.Agencies.Route.{deactivate_employee_route, end_sessions}
use akar_ai.Agencies.State.{AgencyEmployeeMembership, Roster, role_by_slug}
use akar_ai.Agencies.Service.{
  EmployeeCreate, EmployeeUpdate, is_blank, hire, create_employee, update_employee,
  deactivate_employee, deactivate_membership,
}

-- A request of `deactivate_employee` in auth/router.py, with its actor, and the Redis that it finds.
pub record RouteRequest : Type 0 where
  pub tokens : Tokens
  pub ttl_days : ℕ
  pub now : ℕ
  pub actor : Actor
  pub membership_id : ℕ
  pub reason : String
  pub redis : Redis

pub data EmployeeRequest : Type 0 where
  create : String → (new_user_id new_id : ℕ) → EmployeeCreate → EmployeeRequest
  update : ℕ → EmployeeUpdate → EmployeeRequest
  deactivate : ℕ → EmployeeRequest
  route : RouteRequest → EmployeeRequest

unfoldable pub handle_employee : Option TenantContext → EmployeeRequest → Roster → Roster
handle_employee tenant (create password_hash new_user_id new_id body) r =
    (transaction (create_employee tenant password_hash new_user_id new_id body) r).1
handle_employee tenant (update employee_id body) r =
    (transaction (update_employee tenant employee_id body) r).1
handle_employee tenant (deactivate employee_id) r =
    (transaction (deactivate_employee tenant employee_id) r).1
handle_employee tenant (route a) r =
    (transaction
      (deactivate_employee_route a.tokens a.ttl_days a.now a.actor a.membership_id a.reason)
      (record { roster = r; redis = a.redis })).1.roster

abbrev pub IsFreshEmployee : Roster → EmployeeRequest → Type 0
IsFreshEmployee r (create h u new_id body) = find new_id r.memberships ≡ none
IsFreshEmployee r _ = Unit

-- The one membership that a request wrote: of the tenant's, before if it was there, and after.
record MembershipWritten (ctx : TenantContext) (r : Roster)
    (memberships : Table ℕ AgencyEmployeeMembership) : Type 0 where
  key : ℕ
  new : AgencyEmployeeMembership
  written : memberships ≡ put key new r.memberships
  of_tenant : ctx.tenant_id ≡ some new.agency_tenant_id
  mine :
      (old : AgencyEmployeeMembership)
      → find key r.memberships ≡ some old
      → ctx.tenant_id ≡ some old.agency_tenant_id

-- What the route has written: the membership that it names, of whichever agency.
record RouteWritten (a : RouteRequest) (r : Roster) (memberships : Table ℕ AgencyEmployeeMembership)
    : Type 0 where
  old : AgencyEmployeeMembership
  found : find a.membership_id r.memberships ≡ some old
  permitted : contains a.actor.permissions "auth:employee_deactivate" ≡ true
  written :
      memberships
      ≡ put a.membership_id (deactivate_membership a.now a.actor.id a.reason old) r.memberships

route-cases :
    (tenant : Option TenantContext) (a : RouteRequest) (r : Roster)
    → ((handle_employee tenant (route a) r).memberships ≡ r.memberships)
      ⊎ RouteWritten a r (handle_employee tenant (route a) r).memberships
unfolding handle_employee transaction deactivate_employee_route require_permission end_sessions
route-cases tenant a r =
    elim (Bool-cases (contains a.actor.permissions "auth:employee_deactivate")) [
      | inr refused ↦ inl (ground (arith, refused))
      | inl permitted ↦ elim (Option-cases (find a.membership_id r.memberships)) [
        | inl missing ↦ inl (ground (arith, permitted, missing))
        | inr (old, found) ↦ inr (record {
          old = old;
          found = found;
          permitted = permitted;
          written = ground (arith, permitted, found);
        })
      ]
    ]

-- A membership was deactivated by a request of the route that names it.
pub record DeactivatedByRoute (q : EmployeeRequest) (id : ℕ) (m : AgencyEmployeeMembership)
    (after : Table ℕ AgencyEmployeeMembership) : Type 0 where
  pub by : RouteRequest
  pub request_is : q ≡ route by
  pub names : by.membership_id ≡ id
  pub permitted : contains by.actor.permissions "auth:employee_deactivate" ≡ true
  pub now_is : find id after ≡ some (deactivate_membership by.now by.actor.id by.reason m)

err-ne-ok : {A : Type 0} {e : Error} {a : A} → err e ≢ ok a
err-ne-ok h = absurd (ground (arith, h))

module _ (ctx : TenantContext) (agency : ctx.is_platform_actor ≡ false) (r : Roster) where
  matched : (t : ℕ) → ensure_tenant_match (some ctx) t ≡ ok tt → ctx.tenant_id ≡ some t
  matched t h = ground (arith, (ensure_tenant_match_iff ctx t).0 h)

  hire-writes :
      (h : String) (u new_id role_id t : ℕ) (body : EmployeeCreate) (m : AgencyEmployeeMembership)
      → ctx.tenant_id ≡ some t
      → (hire ctx h u new_id role_id body r).0 ≡ ok m
      → (m.agency_tenant_id ≡ t)
        × ((hire ctx h u new_id role_id body r).1.memberships ≡ put new_id m r.memberships)
  unfolding hire
  hire-writes h u new_id role_id t body m e done =
      (ground (arith, e, done), ground (arith, e, done))

  hire-has_tenant :
      (h : String) (u new_id role_id : ℕ) (body : EmployeeCreate) (m : AgencyEmployeeMembership)
      → (hire ctx h u new_id role_id body r).0 ≡ ok m
      → (t : ℕ) × (ctx.tenant_id ≡ some t)
  unfolding hire
  hire-has_tenant h u new_id role_id body m done = elim (Option-cases ctx.tenant_id) [
    | inl missing ↦ absurd (ground (arith, missing, done))
    | inr tenant ↦ tenant
  ]

  create_employee-hire :
      (h : String) (u new_id : ℕ) (body : EmployeeCreate) (m : AgencyEmployeeMembership)
      → (create_employee (some ctx) h u new_id body r).0 ≡ ok m
      → (role_id : ℕ) × (create_employee (some ctx) h u new_id body r
          ≡ hire ctx h u new_id role_id body r)
  unfolding create_employee
  create_employee-hire h u new_id body m done = elim (Result-cases (require_tenant (some ctx))) [
    | inr (refusal, refused) ↦ absurd (err-ne-ok (rw refused at done))
    | inl (actor, passed) ↦
        let same = require_tenant-same ctx actor passed in
        elim (Bool-cases (str_is ctx.role "support_employee")) [
          | inl support ↦ absurd (err-ne-ok (rw (passed, same, support) at done))
          | inr manager ↦ elim (Bool-cases (is_blank body.work_email)) [
            | inl blank ↦ absurd (err-ne-ok (rw (passed, same, manager, blank) at done))
            | inr email ↦ elim (Bool-cases (is_blank body.display_name)) [
              | inl blank ↦ absurd (err-ne-ok (rw (passed, same, manager, email, blank) at done))
              | inr name ↦ elim (Bool-cases (str_is body.role_slug "support_employee")) [
                | inr other ↦
                    absurd (err-ne-ok (rw (passed, same, manager, email, name, other) at done))
                | inl support ↦
                    elim (Option-cases (by_email (or_else body.work_email "") r.db.users)) [
                      | inr (user, taken) ↦ absurd (
                          err-ne-ok
                            (rw (passed, same, manager, email, name, support, taken) at done))
                      | inl free ↦ elim (Option-cases (role_by_slug "support_employee" r.roles)) [
                        | inl missing ↦ absurd (
                            err-ne-ok (
                              rw (passed, same, manager, email, name, support, free, missing) at
                                done))
                        | inr (role_id, e) ↦ (
                          role_id,
                          rw (passed, same, manager, email, name, support, free, e) refl,
                        )
                      ]
                    ]
              ]
            ]
          ]
        ]
  ]

  create-MembershipWritten :
      (h : String) (u new_id : ℕ) (body : EmployeeCreate) (m : AgencyEmployeeMembership)
      → find new_id r.memberships ≡ none
      → (create_employee (some ctx) h u new_id body r).0 ≡ ok m
      → MembershipWritten ctx r (create_employee (some ctx) h u new_id body r).1.memberships
  create-MembershipWritten h u new_id body m fresh done =
      let (role_id, hired) = create_employee-hire h u new_id body m done in
      let (t, e) = hire-has_tenant h u new_id role_id body m (rw hired at done) in
      let (own, wrote) = hire-writes h u new_id role_id t body m e (rw hired at done) in
      record {
        key = new_id;
        new = m;
        written = rw hired wrote;
        of_tenant = ground (arith, e, own);
        mine = λ old found. absurd (ground (arith, fresh, found));
      }

  update-MembershipWritten :
      (id : ℕ) (body : EmployeeUpdate) (m : AgencyEmployeeMembership)
      → (update_employee (some ctx) id body r).0 ≡ ok m
      → MembershipWritten ctx r (update_employee (some ctx) id body r).1.memberships
  unfolding update_employee require_tenant
  update-MembershipWritten id body m done = elim (Option-cases (find id r.memberships)) [
    | inl missing ↦ absurd (ground (arith, missing, done))
    | inr (old, e) ↦
        let own = matched old.agency_tenant_id (ground (arith, e, done)) in
        record {
          key = id;
          new = m;
          written = ground (arith, e, done);
          of_tenant = ground (arith, e, done, own);
          mine = λ row found. ground (arith, e, found, own);
        }
  ]

  deactivate-MembershipWritten :
      (id : ℕ) (u : Unit {0})
      → (deactivate_employee (some ctx) id r).0 ≡ ok u
      → MembershipWritten ctx r (deactivate_employee (some ctx) id r).1.memberships
  unfolding deactivate_employee require_tenant
  deactivate-MembershipWritten id u done = elim (Option-cases (find id r.memberships)) [
    | inl missing ↦ absurd (ground (arith, missing, done))
    | inr (old, e) ↦
        let own = matched old.agency_tenant_id (ground (arith, e, done)) in
        record {
          key = id;
          new = record old { status = "deactivated" };
          written = ground (arith, e, done);
          of_tenant = own;
          mine = λ row found. ground (arith, e, found, own);
        }
  ]

  handle-MembershipWritten :
      (q : EmployeeRequest)
      → IsFreshEmployee r q
      → ((handle_employee (some ctx) q r).memberships ≡ r.memberships)
        ⊎ (MembershipWritten ctx r (handle_employee (some ctx) q r).memberships
            ⊎ ((a : RouteRequest) × (q ≡ route a)
                × RouteWritten a r (handle_employee (some ctx) q r).memberships))
  unfolding handle_employee
  handle-MembershipWritten (create h u new_id body) fresh =
      elim (transaction-cases (create_employee (some ctx) h u new_id body) r) [
        | inl rolled_back ↦ inl (rw rolled_back refl)
        | inr (m, done, wrote) ↦
            inr (inl (rw wrote (create-MembershipWritten h u new_id body m fresh done)))
      ]
  handle-MembershipWritten (update id body) fresh =
      elim (transaction-cases (update_employee (some ctx) id body) r) [
        | inl rolled_back ↦ inl (rw rolled_back refl)
        | inr (m, done, wrote) ↦ inr (inl (rw wrote (update-MembershipWritten id body m done)))
      ]
  handle-MembershipWritten (deactivate id) fresh =
      elim (transaction-cases (deactivate_employee (some ctx) id) r) [
        | inl rolled_back ↦ inl (rw rolled_back refl)
        | inr (u, done, wrote) ↦ inr (inl (rw wrote (deactivate-MembershipWritten id u done)))
      ]
  handle-MembershipWritten (route a) fresh = elim (route-cases (some ctx) a r) [
    | inl same ↦ inl same
    | inr w ↦ inr (inr (a, refl, w))
  ]

  -- A request of an agency's employee leaves the memberships of other agencies as they were, unless it
  -- is one of the deactivation of auth/router.py, which asks for a permission and for no tenant, and
  -- deactivates the membership that it names. A membership that is new is in the agency.
  pub foreign_membership_stays :
      (q : EmployeeRequest) (id : ℕ) (m : AgencyEmployeeMembership)
      → IsFreshEmployee r q
      → ((find id r.memberships ≡ some m)
          → ctx.tenant_id ≢ some m.agency_tenant_id
          → (find id (handle_employee (some ctx) q r).memberships ≡ some m)
            ⊎ DeactivatedByRoute q id m (handle_employee (some ctx) q r).memberships)
        × ((find id r.memberships ≡ none)
            → find id (handle_employee (some ctx) q r).memberships ≡ some m
            → ctx.tenant_id ≡ some m.agency_tenant_id)
  foreign_membership_stays q id m fresh = elim (handle-MembershipWritten q fresh) [
    | inl same ↦ (
      λ found other. inl (rw same found),
      λ missing found. absurd (ground (arith, same, missing, found)),
    )
    | inr (inl w) ↦ (
      λ found other.
          inl (
            rw (w.written, find-put)
              (ground (arith, found, nat_beq_iff w.key id, other, w.mine m))),
      λ missing found. ground (
        arith,
        missing,
        (rw w.written at found),
        find-put w.key id w.new r.memberships,
        w.of_tenant,
        nat_beq_iff w.key id,
      ),
    )
    | inr (inr (a, is, w)) ↦ (
      λ found other. elim (Bool-cases (a.membership_id == id)) [
        | inr differ ↦ inl (rw (w.written, find-put, differ) found)
        | inl same ↦
            let names : a.membership_id ≡ id = ground (arith, same) in
            let old_is : w.old ≡ m = ground (arith, (rw names at w.found), found) in
            inr (record {
              by = a;
              request_is = is;
              names = names;
              permitted = w.permitted;
              now_is = rw (w.written, find-put, same, old_is) refl;
            })
      ],
      λ missing found. elim (Bool-cases (a.membership_id == id)) [
        | inr differ ↦ absurd (ground (arith, missing, (rw (w.written, find-put, differ) at found)))
        | inl same ↦
            let names : a.membership_id ≡ id = ground (arith, same) in
            absurd (ground (arith, (rw names at w.found), missing))
      ],
    )
  ]
