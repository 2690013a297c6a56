-- ===== src/Listings/Service.antt =====
-- `ListingService` of listings/service.py, without its photos.
use akar_ai.Prelude.{
  ℕ, String, not, Option, none, some, List, [], ◌∷◌, str_eq, str_is, some_is, or_else, str,
  contains, format, lookup, nat_key, text_key, if◌then◌else◌,
}
use akar_ai.Exec.{
  Exec, not_found, forbidden, validation, integrity, pure, lift, gets, modify, or_raise, raise_if,
  ◌>>=◌, ◌>>◌,
}
use akar_ai.Table.{Table, find, put}
use akar_ai.Database.{Db, Listing, DomainEventLog, write_domain_event_log}
use akar_ai.Tenant.{TenantContext, require_tenant, ensure_tenant_match}
use akar_ai.Domain.{valid_listing_statuses, listing_status_transitions, allows}

-- The request body: the descriptive fields that it names, with their values or null, and the status
-- if it names one that is not null.
pub record ListingData : Type 0 where
  pub fields : List (String × Option String)
  pub status : Option String

unfoldable pub listing_fields : List String
listing_fields =
    "title" ∷ "description" ∷ "property_type" ∷ "listing_purpose" ∷ "price" ∷ "currency"
    ∷ "bedrooms" ∷ "bathrooms" ∷ "area_size" ∷ "area_unit" ∷ "furnishing" ∷ "location_text"
    ∷ "address" ∷ "city" ∷ "country" ∷ []

-- `if field in data and data[field] is not None`
abbrev set_field : String → Option (Option String) → Table String String → Table String String
set_field field none attributes = attributes
set_field field (some none) attributes = attributes
set_field field (some (some value)) attributes = put field value attributes

-- The loop over the fields; a null column has no entry.
unfoldable pub set_fields :
    List String → List (String × Option String) → Table String String → Table String String
set_fields [] fields attributes = attributes
set_fields (field ∷ rest) fields attributes =
    set_fields rest fields (set_field field (lookup field fields) attributes)

listing_event : String → TenantContext → ℕ → List (String × Option String) → DomainEventLog
listing_event event_name ctx listing_id payload = record {
  event_name = event_name;
  aggregate_type = some "listing";
  aggregate_id = some (str listing_id);
  payload = payload;
  agency_tenant_id = ctx.tenant_id;
  actor_user_id = ctx.actor_id;
}

-- The status assignment of `update_listing`.
abbrev pub with_listing_status : ℕ → Option String → Listing → Listing
with_listing_status now none listing = listing
with_listing_status now (some new_status) listing = record listing {
  status = new_status;
  archived_at = if str_eq new_status "archived" then some now else listing.archived_at;
}

-- Its checks.
unfoldable pub check_status : Option String → String → Exec Db (Unit {0})
check_status none old = pure tt
check_status (some new_status) old = do
  raise_if (not (contains valid_listing_statuses new_status))
      (validation (format ("Invalid listing status: " ∷ new_status ∷ [])))
  raise_if (not (allows listing_status_transitions old new_status))
      (validation (format ("Cannot transition from '" ∷ old ∷ "' to '" ∷ new_status ∷ "'" ∷ [])))

abbrev listing_in_tenant : TenantContext → Option Listing → Option Listing
listing_in_tenant ctx none = none
listing_in_tenant ctx (some listing) =
    if some_is ctx.tenant_id listing.agency_tenant_id then some listing else none

module _ (tenant : Option TenantContext) where
  unfoldable pub get_listing : ℕ → Exec Db Listing
  get_listing listing_id = do
    ctx ← lift (require_tenant tenant)
    found ← gets (λ db. find listing_id db.listings)
    listing ← or_raise (not_found "Listing not found") found
    lift (ensure_tenant_match tenant listing.agency_tenant_id)
    pure listing

  unfoldable pub read_only_get_listing : ℕ → Exec Db (Option Listing)
  read_only_get_listing listing_id = do
    ctx ← lift (require_tenant tenant)
    gets (λ db. listing_in_tenant ctx (find listing_id db.listings))

  unfoldable pub create_listing : ℕ → ListingData → Exec Db Listing
  unfolding listing_event write_domain_event_log
  create_listing listing_id body = do
    ctx ← lift (require_tenant tenant)
    raise_if (str_is ctx.role "support_employee")
        (forbidden "Support employees cannot create listings")
    let status = or_else body.status "inactive"
    raise_if (not (contains valid_listing_statuses status))
        (validation (format ("Invalid listing status: " ∷ status ∷ [])))
    tenant_id ← or_raise (integrity "agency_tenant_id") ctx.tenant_id
    let listing : Listing = record {
      agency_tenant_id = tenant_id;
      attributes = set_fields listing_fields body.fields [];
      status = status;
      archived_at = none;
      created_by_user_id = ctx.actor_id;
      updated_by_user_id = none;
    }
    modify λ db. record db { listings = put listing_id listing db.listings }
    write_domain_event_log (
        listing_event "listing.created" ctx listing_id
          (("title", find "title" listing.attributes) ∷ ("status", some status) ∷ []))
    pure listing

  unfoldable pub update_listing : ℕ → ℕ → ListingData → Exec Db Listing
  unfolding listing_event write_domain_event_log check_status
  update_listing now listing_id body = do
    ctx ← lift (require_tenant tenant)
    found ← gets (λ db. find listing_id db.listings)
    old ← or_raise (not_found "Listing not found") found
    lift (ensure_tenant_match tenant old.agency_tenant_id)
    check_status body.status old.status
    let listing : Listing = record (with_listing_status now body.status old) {
      attributes = set_fields listing_fields body.fields old.attributes;
      updated_by_user_id = ctx.actor_id;
    }
    modify λ db. record db { listings = put listing_id listing db.listings }
    write_domain_event_log
        (listing_event "listing.updated" ctx listing_id (("status", some listing.status) ∷ []))
    pure listing

  -- What `archive_listing` does to a listing that is not archived.
  archive : TenantContext → ℕ → ℕ → Listing → Exec Db (Unit {0})
  unfolding listing_event write_domain_event_log
  archive ctx now listing_id listing = do
    modify λ db. record db {
      listings =
          put listing_id
            (record listing {
              status = "archived";
              archived_at = some now;
              updated_by_user_id = ctx.actor_id;
            })
            db.listings;
    }
    write_domain_event_log (listing_event "listing.archived" ctx listing_id [])

  unfoldable pub archive_listing : ℕ → ℕ → Exec Db (Unit {0})
  unfolding archive
  archive_listing now listing_id = do
    ctx ← lift (require_tenant tenant)
    found ← gets (λ db. find listing_id db.listings)
    listing ← or_raise (not_found "Listing not found") found
    lift (ensure_tenant_match tenant listing.agency_tenant_id)
    if str_eq listing.status "archived" then pure tt else archive ctx now listing_id listing
