-- ===== src/Viewings/Effects.antt =====
-- What a successful write of a slot of viewings/service.py has found and what it has written.
use akar_ai.Prelude.{
  second, false, ◌*◌, ℕ, ◌+◌, ◌≤◌, ◌<◌, ◌≡◌, refl, true, ◌==◌, Option, none, some, or_else, List,
  [], ◌∷◌, ◌++◌, arith, nat_key, ◌≢◌, ◌⊎◌, Option-cases, Bool-cases, inl, inr, str_eq_iff, str_is,
  leb, ltb,
}
use akar_ai.Exec.{
  ok, Raised, passed_guards, Result-cases, not_found, forbidden, validation, integrity,
}
use akar_ai.Table.{find, put}
use akar_ai.Database.{
  Db, DomainEventLog, RlsContext, Listing, ListingViewingSlot, ScheduledViewing,
  ScheduledViewingStatusHistory,
}
use akar_ai.Tenant.Laws.{require_tenant-same, require_tenant-context}
use akar_ai.Tenant.{TenantContext, require_tenant, ensure_tenant_match}
use akar_ai.Viewings.Slots.{
  SlotCreate, SlotUpdate, create_slot, update_slot, apply_update, deactivate_slot, slot_event,
}

-- The tables that the methods of viewings/service.py write: slots, viewings and their history, one
-- domain log and the session context. All others are as they were.
pub record Wrote (db db' : Db) (slots : List (ℕ × ListingViewingSlot))
    (viewings : List (ℕ × ScheduledViewing)) (history : List ScheduledViewingStatusHistory)
    (log : DomainEventLog) (context : RlsContext) : Type 0 where
  pub slots_are : db'.slots ≡ slots
  pub viewings_are : db'.viewings ≡ viewings
  pub history_is : db'.viewing_history ≡ history
  pub log_is : db'.domain_logs ≡ db.domain_logs ++ log ∷ []
  pub context_is : db'.rls ≡ context
  pub listings_are : db'.listings ≡ db.listings
  pub leads_are : db'.leads ≡ db.leads
  pub spam_is : db'.spam_results ≡ db.spam_results
  pub level_is : db'.level_results ≡ db.level_results
  pub reviewed_is : db'.reviewed ≡ db.reviewed
  pub users_are : db'.users ≡ db.users
  pub sessions_are : db'.refresh_sessions ≡ db.refresh_sessions
  pub outbox_is : db'.outbox ≡ db.outbox

pub record Deactivated (tenant : Option TenantContext) (listing_id slot_id : ℕ) (db db' : Db)
    : Type 0 where
  pub ctx : TenantContext
  pub context : tenant ≡ some ctx
  pub slot : ListingViewingSlot
  pub found : find slot_id db.slots ≡ some slot
  pub permitted : ensure_tenant_match tenant slot.agency_tenant_id ≡ ok tt
  pub wrote :
      Wrote db db'
        (put slot_id (record slot { status = "inactive" }) db.slots)
        db.viewings
        db.viewing_history
        (slot_event "listing.viewing_slot_deactivated" ctx listing_id slot_id)
        db.rls

module _ (tenant : Option TenantContext) (listing_id slot_id : ℕ) (db : Db) where
  record DeactivateGuards : Type 0 where
    ctx : TenantContext
    passed : require_tenant tenant ≡ ok ctx
    slot : ListingViewingSlot
    found : find slot_id db.slots ≡ some slot
    on_listing : (slot.listing_id == listing_id) ≡ true
    permitted : ensure_tenant_match tenant slot.agency_tenant_id ≡ ok tt

  deactivate_slot-guards :
      (u : Unit {0}) → (deactivate_slot tenant listing_id slot_id db).0 ≡ ok u → DeactivateGuards
  unfolding deactivate_slot
  deactivate_slot-guards u h = elim (Result-cases (require_tenant tenant)) [
    | inr (e, refused) ↦ absurd (ground (arith, refused))
    | inl (ctx, passed) ↦ elim (Option-cases (find slot_id db.slots)) [
      | inl missing ↦ absurd (ground (arith, passed, missing))
      | inr (slot, e) ↦ record {
        ctx = ctx;
        passed = passed;
        slot = slot;
        found = e;
        on_listing = ground (arith, passed, e);
        permitted = ground (arith, passed, e);
      }
    ]
  ]

  deactivate_slot-writes :
      (g : DeactivateGuards)
      → Wrote db
          (deactivate_slot tenant listing_id slot_id db).1
          (put slot_id (record g.slot { status = "inactive" }) db.slots)
          db.viewings
          db.viewing_history
          (slot_event "listing.viewing_slot_deactivated" g.ctx listing_id slot_id)
          db.rls
  unfolding deactivate_slot
  deactivate_slot-writes g = ground (arith, g.passed, g.found, g.on_listing, g.permitted)

  pub deactivate_slot-Deactivated :
      (u : Unit {0})
      → (deactivate_slot tenant listing_id slot_id db).0 ≡ ok u
      → Deactivated tenant listing_id slot_id db (deactivate_slot tenant listing_id slot_id db).1
  deactivate_slot-Deactivated u h =
      let g = deactivate_slot-guards u h in
      record {
        ctx = g.ctx;
        context = require_tenant-context tenant g.ctx g.passed;
        slot = g.slot;
        found = g.found;
        permitted = g.permitted;
        wrote = deactivate_slot-writes g;
      }

abbrev pub new_slot : TenantContext → ℕ → ℕ → SlotCreate → ListingViewingSlot
new_slot ctx listing_id tenant_id body = record {
  listing_id = listing_id;
  agency_tenant_id = tenant_id;
  starts_at = body.starts_at;
  ends_at = body.ends_at;
  capacity = or_else body.capacity 1;
  reserved_count = 0;
  status = "active";
  created_by_user_id = ctx.actor_id;
}

pub record SlotCreated (tenant : Option TenantContext) (now slot_id listing_id : ℕ)
    (body : SlotCreate) (db db' : Db) : Type 0 where
  pub ctx : TenantContext
  pub context : tenant ≡ some ctx
  pub not_support : ctx.role ≢ some "support_employee"
  pub listing : Listing
  pub listed : find listing_id db.listings ≡ some listing
  pub permitted : ensure_tenant_match tenant listing.agency_tenant_id ≡ ok tt
  pub ordered : body.starts_at < body.ends_at
  pub in_future : now + 300 * second ≤ body.starts_at
  pub tenant_id : ℕ
  pub tenant_is : ctx.tenant_id ≡ some tenant_id
  pub wrote :
      Wrote db db'
        (put slot_id (new_slot ctx listing_id tenant_id body) db.slots)
        db.viewings
        db.viewing_history
        (slot_event "listing.viewing_slot_created" ctx listing_id slot_id)
        db.rls

module _ (ctx : TenantContext) (now slot_id listing_id : ℕ) (body : SlotCreate) (db : Db) where
  record CreateGuards : Type 0 where
    passed : require_tenant (some ctx) ≡ ok ctx
    agent : str_is ctx.role "support_employee" ≡ false
    listing : Listing
    listed : find listing_id db.listings ≡ some listing
    permitted : ensure_tenant_match (some ctx) listing.agency_tenant_id ≡ ok tt
    ordered : leb body.ends_at body.starts_at ≡ false
    future : ltb body.starts_at (now + 300 * second) ≡ false
    tenant_id : ℕ
    tenant_is : ctx.tenant_id ≡ some tenant_id

  create_slot-guards :
      Raised (create_slot (some ctx) now slot_id listing_id body db).0 ⊎ CreateGuards
  unfolding create_slot
  create_slot-guards = elim (Result-cases (require_tenant (some ctx))) [
    | inr (refused, r) ↦ inl (refused, ground (arith, r))
    | inl (actor, some_actor) ↦
        let same = require_tenant-same ctx actor some_actor in
        let passed = rw same at some_actor in
        elim (Bool-cases (str_is ctx.role "support_employee")) [
          | inl support ↦ inl (
            (forbidden "Support employees cannot create viewing slots"),
            ground (arith, passed, support),
          )
          | inr agent ↦ elim (Option-cases (find listing_id db.listings)) [
            | inl missing ↦
                inl ((not_found "Listing not found"), ground (arith, passed, agent, missing))
            | inr (listing, e) ↦
                elim (Result-cases (ensure_tenant_match (some ctx) listing.agency_tenant_id)) [
                  | inr (denied, d) ↦ inl (denied, ground (arith, passed, agent, e, d))
                  | inl (u, permitted) ↦ elim (Bool-cases (leb body.ends_at body.starts_at)) [
                    | inl wrong ↦ inl (
                      (validation "ends_at must be after starts_at"),
                      ground (arith, passed, agent, e, permitted, wrong),
                    )
                    | inr ordered ↦ elim (Bool-cases (ltb body.starts_at (now + 300 * second))) [
                      | inl soon ↦ inl (
                        (validation
                            "Viewing slot start time must be at least 5 minutes in the future."),
                        ground (arith, passed, agent, e, permitted, ordered, soon),
                      )
                      | inr future ↦ elim (Option-cases ctx.tenant_id) [
                        | inl none_is ↦ inl (
                          (integrity "agency_tenant_id"),
                          ground (arith, passed, agent, e, permitted, ordered, future, none_is),
                        )
                        | inr (t, p) ↦ inr record {
                          passed = passed;
                          agent = agent;
                          listing = listing;
                          listed = e;
                          permitted = permitted;
                          ordered = ordered;
                          future = future;
                          tenant_id = t;
                          tenant_is = p;
                        }
                      ]
                    ]
                  ]
                ]
          ]
        ]
  ]

  create_slot-writes :
      (g : CreateGuards)
      → Wrote db
          (create_slot (some ctx) now slot_id listing_id body db).1
          (put slot_id (new_slot ctx listing_id g.tenant_id body) db.slots)
          db.viewings
          db.viewing_history
          (slot_event "listing.viewing_slot_created" ctx listing_id slot_id)
          db.rls
  unfolding create_slot
  create_slot-writes g =
      ground (arith, g.passed, g.agent, g.listed, g.permitted, g.ordered, g.future, g.tenant_is)

  create_slot-SlotCreated :
      (id : ℕ)
      → (create_slot (some ctx) now slot_id listing_id body db).0 ≡ ok id
      → SlotCreated
          (some ctx)
          now
          slot_id
          listing_id
          body
          db
          (create_slot (some ctx) now slot_id listing_id body db).1
  create_slot-SlotCreated id h =
      let g = passed_guards create_slot-guards h in
      record {
        ctx = ctx;
        context = refl;
        not_support =
            λ e. ground (arith, g.agent, e, str_eq_iff "support_employee" "support_employee");
        listing = g.listing;
        listed = g.listed;
        permitted = g.permitted;
        ordered = ground (arith, g.ordered);
        in_future = ground (arith, g.future);
        tenant_id = g.tenant_id;
        tenant_is = g.tenant_is;
        wrote = create_slot-writes g;
      }

pub record SlotUpdated (tenant : Option TenantContext) (now listing_id slot_id : ℕ)
    (body : SlotUpdate) (db db' : Db) : Type 0 where
  pub ctx : TenantContext
  pub context : tenant ≡ some ctx
  pub slot : ListingViewingSlot
  pub found : find slot_id db.slots ≡ some slot
  pub permitted : ensure_tenant_match tenant slot.agency_tenant_id ≡ ok tt
  pub ordered : (apply_update body slot).starts_at < (apply_update body slot).ends_at
  pub in_future : now + 300 * second ≤ (apply_update body slot).starts_at
  pub wrote :
      Wrote db db'
        (put slot_id (apply_update body slot) db.slots)
        db.viewings
        db.viewing_history
        (slot_event "listing.viewing_slot_updated" ctx listing_id slot_id)
        db.rls

module _ (tenant : Option TenantContext) (now listing_id slot_id : ℕ) (body : SlotUpdate)
    (db : Db) where
  record UpdateGuards : Type 0 where
    ctx : TenantContext
    passed : require_tenant tenant ≡ ok ctx
    slot : ListingViewingSlot
    found : find slot_id db.slots ≡ some slot
    on_listing : (slot.listing_id == listing_id) ≡ true
    permitted : ensure_tenant_match tenant slot.agency_tenant_id ≡ ok tt
    ordered : leb (apply_update body slot).ends_at (apply_update body slot).starts_at ≡ false
    future : ltb (apply_update body slot).starts_at (now + 300 * second) ≡ false

  update_slot-guards :
      (s : ListingViewingSlot)
      → (update_slot tenant now listing_id slot_id body db).0 ≡ ok s
      → UpdateGuards
  unfolding update_slot
  update_slot-guards s h = elim (Result-cases (require_tenant tenant)) [
    | inr (e, refused) ↦ absurd (ground (arith, refused))
    | inl (ctx, passed) ↦ elim (Option-cases (find slot_id db.slots)) [
      | inl missing ↦ absurd (ground (arith, passed, missing))
      | inr (slot, e) ↦ record {
        ctx = ctx;
        passed = passed;
        slot = slot;
        found = e;
        on_listing = ground (arith, passed, e);
        permitted = ground (arith, passed, e);
        ordered = ground (arith, passed, e);
        future = ground (arith, passed, e);
      }
    ]
  ]

  update_slot-writes :
      (g : UpdateGuards)
      → Wrote db
          (update_slot tenant now listing_id slot_id body db).1
          (put slot_id (apply_update body g.slot) db.slots)
          db.viewings
          db.viewing_history
          (slot_event "listing.viewing_slot_updated" g.ctx listing_id slot_id)
          db.rls
  unfolding update_slot
  update_slot-writes g =
      ground (arith, g.passed, g.found, g.on_listing, g.permitted, g.ordered, g.future)

  pub update_slot-SlotUpdated :
      (s : ListingViewingSlot)
      → (update_slot tenant now listing_id slot_id body db).0 ≡ ok s
      → SlotUpdated tenant now listing_id slot_id body db
          (update_slot tenant now listing_id slot_id body db).1
  update_slot-SlotUpdated s h =
      let g = update_slot-guards s h in
      record {
        ctx = g.ctx;
        context = require_tenant-context tenant g.ctx g.passed;
        slot = g.slot;
        found = g.found;
        permitted = g.permitted;
        ordered = ground (arith, g.ordered);
        in_future = ground (arith, g.future);
        wrote = update_slot-writes g;
      }

-- Without a tenant context `create_slot` does not get past `require_tenant`.
pub create_slot_effect :
    (tenant : Option TenantContext) (now slot_id listing_id : ℕ) (body : SlotCreate) (db : Db)
    (id : ℕ)
    → (create_slot tenant now slot_id listing_id body db).0 ≡ ok id
    → SlotCreated tenant now slot_id listing_id body db
        (create_slot tenant now slot_id listing_id body db).1
create_slot_effect none now slot_id listing_id body db id h =
    absurd (unfold create_slot require_tenant in ground arith)
create_slot_effect (some ctx) now slot_id listing_id body db id h =
    create_slot-SlotCreated ctx now slot_id listing_id body db id h
