-- ===== src/Leads/Effects.antt =====
-- What a successful call of a writing method of leads/service.py has found and what it has written.
use akar_ai.Prelude.{
  ℕ, String, ◌≡◌, refl, true, Option, none, some, or_else, strip, str, List, [], ◌∷◌, ◌++◌, arith,
  nat_key, ◌≢◌, Option-cases, inl, inr, str_eq, str_eq_iff, if◌then◌else◌,
}
use akar_ai.Exec.{ok, Result-cases}
use akar_ai.Table.{Table, find, put}
use akar_ai.Database.{
  Db, DomainEventLog, OutboxEvent, Listing, User, Lead, StageResult, ReviewedLeadRecord,
}
use akar_ai.Tenant.Laws.{require_tenant-context}
use akar_ai.Tenant.{TenantContext, require_tenant, ensure_tenant_match}
use akar_ai.Domain.{lead_status_transitions, allows}
use akar_ai.Leads.Inquiries.{
  get_lead_profile_missing_fields, pending_result, new_lead, is_empty, create_inquiry, lead_created,
}
use akar_ai.Leads.Reviews.{lead_event, with_status, update_lead_status, mark_reviewed, review_lead}

-- The tables that the methods of leads/service.py write.
pub record LeadsWrote (db' : Db) (leads : Table ℕ Lead) (spam level : Table ℕ StageResult)
    : Type 0 where
  pub leads_are : db'.leads ≡ leads
  pub spam_is : db'.spam_results ≡ spam
  pub level_is : db'.level_results ≡ level

-- The other tables, of which they write at most the outbox, the reviews and the domain logs.
pub record LeadsAside (db db' : Db) (outbox : List OutboxEvent) (reviewed : List ReviewedLeadRecord)
    (logs : List DomainEventLog) : Type 0 where
  pub outbox_is : db'.outbox ≡ outbox
  pub reviewed_is : db'.reviewed ≡ reviewed
  pub logs_are : db'.domain_logs ≡ logs
  pub listings_are : db'.listings ≡ db.listings
  pub slots_are : db'.slots ≡ db.slots
  pub viewings_are : db'.viewings ≡ db.viewings
  pub history_is : db'.viewing_history ≡ db.viewing_history
  pub users_are : db'.users ≡ db.users
  pub sessions_are : db'.refresh_sessions ≡ db.refresh_sessions
  pub context_is : db'.rls ≡ db.rls

abbrev pub inquiry_log : ℕ → Lead → ℕ → ℕ → DomainEventLog
inquiry_log lead_id lead listing_id user_id = record {
  event_name = "lead.created";
  aggregate_type = some "lead";
  aggregate_id = some (str lead_id);
  payload =
      ("listing_id", some (str listing_id)) ∷ ("email", lead.email) ∷ ("source", some "web") ∷ [];
  agency_tenant_id = some lead.agency_tenant_id;
  actor_user_id = some user_id;
}

pub record Inquired (lead_id listing_id user_id : ℕ) (message : Option String) (db db' : Db)
    : Type 0 where
  pub listing : Listing
  pub listed : find listing_id db.listings ≡ some listing
  pub listing_is_active : listing.status ≡ "active"
  pub user : User
  pub known : find user_id db.users ≡ some user
  pub profile : get_lead_profile_missing_fields user ≡ []
  pub says_something : strip (or_else message "") ≢ ""
  pub outbox_is :
      db'.outbox
      ≡ db.outbox
        ++ lead_created lead_id
            (new_lead listing listing_id user user_id (strip (or_else message "")))
            (strip (or_else message ""))
          ∷ []
  pub wrote :
      LeadsWrote db'
        (put lead_id
          (new_lead listing listing_id user user_id (strip (or_else message "")))
          db.leads)
        (put lead_id (pending_result listing.agency_tenant_id) db.spam_results)
        (put lead_id (pending_result listing.agency_tenant_id) db.level_results)
  pub aside :
      LeadsAside db db'
        (db.outbox
          ++ lead_created lead_id
              (new_lead listing listing_id user user_id (strip (or_else message "")))
              (strip (or_else message ""))
            ∷ [])
        db.reviewed
        (db.domain_logs
          ++ inquiry_log lead_id
              (new_lead listing listing_id user user_id (strip (or_else message "")))
              listing_id
              user_id
            ∷ [])

-- The two fields that the profile check names.
missing_fields-cases :
    (user : User)
    → is_empty (get_lead_profile_missing_fields user) ≡ true
    → get_lead_profile_missing_fields user ≡ []
missing_fields-cases user h = empty_is (get_lead_profile_missing_fields user) h
  where
    empty_is : (xs : List String) → is_empty xs ≡ true → xs ≡ []
    empty_is [] h = refl
    empty_is (x ∷ xs) h = absurd (ground arith)

module _ (lead_id listing_id user_id : ℕ) (message : Option String) (db : Db) where
  pub create_inquiry-Inquired :
      (l : Lead)
      → (create_inquiry lead_id listing_id user_id message db).0 ≡ ok l
      → Inquired lead_id listing_id user_id message db
          (create_inquiry lead_id listing_id user_id message db).1
  unfolding create_inquiry
  create_inquiry-Inquired l h = elim (Option-cases (find listing_id db.listings)) [
    | inl missing ↦ absurd (ground (arith, missing))
    | inr (listing, e) ↦ elim (Option-cases (find user_id db.users)) [
      | inl missing ↦ absurd (ground (arith, e, missing))
      | inr (user, p) ↦ record {
        listing = listing;
        listed = e;
        listing_is_active = ground (arith, e, p, str_eq_iff listing.status "active");
        user = user;
        known = p;
        profile = ground (arith, e, p, missing_fields-cases user);
        says_something = ground (arith, e, p, str_eq_iff (strip (or_else message "")) "");
        outbox_is = ground (arith, e, p);
        wrote = ground (arith, e, p);
        aside = ground (arith, e, p);
      }
    ]
  ]

pub record Moved (tenant : Option TenantContext) (now lead_id : ℕ) (new_status : String)
    (db db' : Db) : Type 0 where
  pub ctx : TenantContext
  pub context : tenant ≡ some ctx
  pub lead : Lead
  pub found : find lead_id db.leads ≡ some lead
  pub permitted : ensure_tenant_match tenant lead.agency_tenant_id ≡ ok tt
  pub allowed : allows lead_status_transitions lead.status new_status ≡ true
  pub wrote :
      LeadsWrote db'
        (put lead_id (with_status now new_status lead) db.leads)
        db.spam_results
        db.level_results
  pub aside :
      LeadsAside db db' db.outbox db.reviewed
        (db.domain_logs ++ lead_event "lead.status_changed" ctx lead_id lead new_status ∷ [])

module _ (tenant : Option TenantContext) (now lead_id : ℕ) (new_status : String) (db : Db) where
  pub update_lead_status-Moved :
      (l : Lead)
      → (update_lead_status tenant now lead_id new_status db).0 ≡ ok l
      → Moved tenant now lead_id new_status db
          (update_lead_status tenant now lead_id new_status db).1
  unfolding update_lead_status
  update_lead_status-Moved l h = elim (Result-cases (require_tenant tenant)) [
    | inr (refusal, refused) ↦ absurd (ground (arith, refused))
    | inl (ctx, passed) ↦ elim (Option-cases (find lead_id db.leads)) [
      | inl missing ↦ absurd (ground (arith, passed, missing))
      | inr (lead, e) ↦ record {
        ctx = ctx;
        context = require_tenant-context tenant ctx passed;
        lead = lead;
        found = e;
        permitted = ground (arith, passed, e);
        allowed = ground (arith, passed, e);
        wrote = ground (arith, passed, e);
        aside = ground (arith, passed, e);
      }
    ]
  ]

-- The leads after a review: a new lead becomes a reviewed one.
abbrev pub leads_reviewed : ℕ → Lead → Table ℕ Lead → Table ℕ Lead
leads_reviewed lead_id lead leads =
    if str_eq lead.status "new"
    then put lead_id (record lead { status = "reviewed" }) leads
    else leads

abbrev pub review_row : ℕ → ℕ → ℕ → Option String → Option String → ReviewedLeadRecord
review_row lead_id tenant_id reviewed_by outcome notes = record {
  lead_id = lead_id;
  agency_tenant_id = tenant_id;
  reviewed_by_user_id = some reviewed_by;
  outcome = outcome;
  notes = notes;
}

pub record Reviewed (tenant : Option TenantContext) (lead_id reviewed_by : ℕ)
    (outcome notes : Option String) (db db' : Db) : Type 0 where
  pub ctx : TenantContext
  pub context : tenant ≡ some ctx
  pub lead : Lead
  pub found : find lead_id db.leads ≡ some lead
  pub permitted : ensure_tenant_match tenant lead.agency_tenant_id ≡ ok tt
  pub tenant_id : ℕ
  pub tenant_is : ctx.tenant_id ≡ some tenant_id
  pub reviewed_is :
      db'.reviewed
      ≡ db.reviewed
        ++ record {
          lead_id = lead_id;
          agency_tenant_id = tenant_id;
          reviewed_by_user_id = some reviewed_by;
          outcome = outcome;
          notes = notes;
        }
          ∷ []
  pub wrote : LeadsWrote db' (leads_reviewed lead_id lead db.leads) db.spam_results db.level_results
  pub aside :
      LeadsAside db db' db.outbox
        (db.reviewed ++ review_row lead_id tenant_id reviewed_by outcome notes ∷ [])
        (if str_eq lead.status "new"
          then db.domain_logs ++ lead_event "lead.reviewed" ctx lead_id lead "reviewed" ∷ []
          else db.domain_logs)

module _ (ctx : TenantContext) (lead_id reviewed_by : ℕ) (outcome notes : Option String)
    (db : Db) where
  review_lead-Reviewed :
      (r : ReviewedLeadRecord)
      → (review_lead (some ctx) lead_id reviewed_by outcome notes db).0 ≡ ok r
      → Reviewed
          (some ctx)
          lead_id
          reviewed_by
          outcome
          notes
          db
          (review_lead (some ctx) lead_id reviewed_by outcome notes db).1
  unfolding review_lead require_tenant mark_reviewed
  review_lead-Reviewed r h = elim (Option-cases (find lead_id db.leads)) [
    | inl missing ↦ absurd (ground (arith, missing))
    | inr (lead, e) ↦ elim (Option-cases ctx.tenant_id) [
      | inl missing ↦ absurd (ground (arith, e, missing))
      | inr (t, p) ↦ record {
        ctx = ctx;
        context = refl;
        lead = lead;
        found = e;
        permitted = ground (arith, e);
        tenant_id = t;
        tenant_is = p;
        reviewed_is = ground (arith, e, p);
        wrote = record {
          leads_are = ground (arith, e, p);
          spam_is = ground (arith, e, p);
          level_is = ground (arith, e, p);
        };
        aside = record {
          outbox_is = ground (arith, e, p);
          reviewed_is = ground (arith, e, p);
          logs_are = ground (arith, e, p);
          listings_are = ground (arith, e, p);
          slots_are = ground (arith, e, p);
          viewings_are = ground (arith, e, p);
          history_is = ground (arith, e, p);
          users_are = ground (arith, e, p);
          sessions_are = ground (arith, e, p);
          context_is = ground (arith, e, p);
        };
      }
    ]
  ]

pub review_lead_effect :
    (tenant : Option TenantContext) (lead_id reviewed_by : ℕ) (outcome notes : Option String)
    (db : Db) (r : ReviewedLeadRecord)
    → (review_lead tenant lead_id reviewed_by outcome notes db).0 ≡ ok r
    → Reviewed tenant lead_id reviewed_by outcome notes db
        (review_lead tenant lead_id reviewed_by outcome notes db).1
review_lead_effect none lead_id reviewed_by outcome notes db r h =
    absurd (unfold review_lead require_tenant in ground arith)
review_lead_effect (some ctx) lead_id reviewed_by outcome notes db r h =
    review_lead-Reviewed ctx lead_id reviewed_by outcome notes db r h
