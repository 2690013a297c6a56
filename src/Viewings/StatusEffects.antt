-- ===== src/Viewings/StatusEffects.antt =====
-- What a successful change of status of viewings/service.py has found and what it has written.
use akar_ai.Prelude.{
  nat_key, ℕ, String, ◌≡◌, refl, true, false, Option, none, some, [], ◌∷◌, ◌++◌, arith, ◌≢◌,
  Option-cases, Bool-cases, inl, inr, ◌⊎◌, str, str_eq_iff, str_is, contains, format,
}
use akar_ai.Exec.{ok, Result-cases, Raised, passed_guards, not_found, forbidden, validation}
use akar_ai.Table.{find, put}
use akar_ai.Database.{Db, ScheduledViewing, ScheduledViewingStatusHistory, DomainEventLog}
use akar_ai.Tenant.Laws.{require_tenant-same}
use akar_ai.Tenant.{TenantContext, require_tenant, ensure_tenant_match}
use akar_ai.Domain.{valid_viewing_statuses, viewing_status_transitions, allows}
use akar_ai.Viewings.Bookings.{update_viewing_status}
use akar_ai.Viewings.Effects.{Wrote}

abbrev pub changed_row :
    TenantContext → ℕ → ScheduledViewing → String → Option String → ScheduledViewingStatusHistory
changed_row ctx viewing_id viewing new_status reason = record {
  scheduled_viewing_id = viewing_id;
  agency_tenant_id = viewing.agency_tenant_id;
  old_status = some viewing.status;
  new_status = new_status;
  changed_by_user_id = ctx.actor_id;
  reason = reason;
}

abbrev pub status_log : TenantContext → ℕ → ScheduledViewing → String → DomainEventLog
status_log ctx viewing_id viewing new_status = record {
  event_name = "viewing.status_changed";
  aggregate_type = some "viewing";
  aggregate_id = some (str viewing_id);
  payload = ("old_status", some viewing.status) ∷ ("new_status", some new_status) ∷ [];
  agency_tenant_id = some viewing.agency_tenant_id;
  actor_user_id = ctx.actor_id;
}

pub record StatusChanged (tenant : Option TenantContext) (viewing_id : ℕ) (new_status : String)
    (reason : Option String) (db db' : Db) : Type 0 where
  pub ctx : TenantContext
  pub context : tenant ≡ some ctx
  pub not_support : ctx.role ≢ some "support_employee"
  pub viewing : ScheduledViewing
  pub found : find viewing_id db.viewings ≡ some viewing
  pub permitted : ensure_tenant_match tenant viewing.agency_tenant_id ≡ ok tt
  pub allowed : allows viewing_status_transitions viewing.status new_status ≡ true
  pub wrote :
      Wrote db db' db.slots
        (put viewing_id (record viewing { status = new_status }) db.viewings)
        (db.viewing_history ++ changed_row ctx viewing_id viewing new_status reason ∷ [])
        (status_log ctx viewing_id viewing new_status)
        db.rls

module _ (ctx : TenantContext) (viewing_id : ℕ) (new_status : String) (reason : Option String)
    (db : Db) where
  record StatusGuards : Type 0 where
    passed : require_tenant (some ctx) ≡ ok ctx
    agent : str_is ctx.role "support_employee" ≡ false
    viewing : ScheduledViewing
    found : find viewing_id db.viewings ≡ some viewing
    permitted : ensure_tenant_match (some ctx) viewing.agency_tenant_id ≡ ok tt
    valid : contains valid_viewing_statuses new_status ≡ true
    allowed : allows viewing_status_transitions viewing.status new_status ≡ true

  update_viewing_status-guards :
      Raised (update_viewing_status (some ctx) viewing_id new_status reason db).0 ⊎ StatusGuards
  unfolding update_viewing_status
  update_viewing_status-guards = elim (Result-cases (require_tenant (some ctx))) [
    | inr (refused, r) ↦ inl (refused, ground (arith, r))
    | inl (actor, some_actor) ↦
        let same = require_tenant-same ctx actor some_actor in
        let passed = rw same at some_actor in
        elim (Bool-cases (str_is ctx.role "support_employee")) [
          | inl support ↦ inl (
            forbidden "Support employees cannot modify viewing schedules",
            ground (arith, passed, support),
          )
          | inr agent ↦ elim (Option-cases (find viewing_id db.viewings)) [
            | inl missing ↦
                inl
                  (not_found "Scheduled viewing not found", ground (arith, passed, agent, missing))
            | inr (viewing, e) ↦
                elim (Result-cases (ensure_tenant_match (some ctx) viewing.agency_tenant_id)) [
                  | inr (denied, d) ↦ inl (denied, ground (arith, passed, agent, e, d))
                  | inl (u, permitted) ↦
                      elim (Bool-cases (contains valid_viewing_statuses new_status)) [
                        | inr unknown ↦ inl (
                          validation (format ("Invalid viewing status: " ∷ new_status ∷ [])),
                          ground (arith, passed, agent, e, permitted, unknown),
                        )
                        | inl valid ↦
                            elim (Bool-cases
                              (allows viewing_status_transitions viewing.status new_status)) [
                                | inr barred ↦ inl (
                                  validation (
                                      format (
                                        "Cannot transition from '" ∷ viewing.status ∷ "' to '"
                                        ∷ new_status ∷ "'" ∷ [])),
                                  ground (arith, passed, agent, e, permitted, valid, barred),
                                )
                                | inl allowed ↦ inr record {
                                  passed = passed;
                                  agent = agent;
                                  viewing = viewing;
                                  found = e;
                                  permitted = permitted;
                                  valid = valid;
                                  allowed = allowed;
                                }
                              ]
                      ]
                ]
          ]
        ]
  ]

  update_viewing_status-writes :
      (g : StatusGuards)
      → Wrote db
          (update_viewing_status (some ctx) viewing_id new_status reason db).1
          db.slots
          (put viewing_id (record g.viewing { status = new_status }) db.viewings)
          (db.viewing_history ++ changed_row ctx viewing_id g.viewing new_status reason ∷ [])
          (status_log ctx viewing_id g.viewing new_status)
          db.rls
  unfolding update_viewing_status
  update_viewing_status-writes g =
      ground (arith, g.passed, g.agent, g.found, g.permitted, g.valid, g.allowed)

  update_viewing_status-StatusChanged :
      (v : ScheduledViewing)
      → (update_viewing_status (some ctx) viewing_id new_status reason db).0 ≡ ok v
      → StatusChanged
          (some ctx)
          viewing_id
          new_status
          reason
          db
          (update_viewing_status (some ctx) viewing_id new_status reason db).1
  update_viewing_status-StatusChanged v h =
      let g = passed_guards update_viewing_status-guards h in
      record {
        ctx = ctx;
        context = refl;
        not_support =
            λ e. ground (arith, g.agent, e, str_eq_iff "support_employee" "support_employee");
        viewing = g.viewing;
        found = g.found;
        permitted = g.permitted;
        allowed = g.allowed;
        wrote = update_viewing_status-writes g;
      }

-- Without a tenant context the method does not get past `require_tenant`.
pub update_viewing_status_effect :
    (tenant : Option TenantContext) (viewing_id : ℕ) (new_status : String) (reason : Option String)
    (db : Db) (v : ScheduledViewing)
    → (update_viewing_status tenant viewing_id new_status reason db).0 ≡ ok v
    → StatusChanged tenant viewing_id new_status reason db
        (update_viewing_status tenant viewing_id new_status reason db).1
update_viewing_status_effect none viewing_id new_status reason db v h =
    absurd (unfold update_viewing_status require_tenant in ground arith)
update_viewing_status_effect (some ctx) viewing_id new_status reason db v h =
    update_viewing_status-StatusChanged ctx viewing_id new_status reason db v h
