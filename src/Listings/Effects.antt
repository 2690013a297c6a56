-- ===== src/Listings/Effects.antt =====
-- What a successful call of a writing method of listings/service.py has found and what it has
-- written.
use akar_ai.Prelude.{
  ℕ, ◌==◌, ◌≡◌, refl, true, false, Option, none, some, arith, nat_key, Bool-cases, Option-cases,
  inl, inr, str_eq, str_eq_iff,
}
use akar_ai.Exec.{ok}
use akar_ai.Table.{find, put, find-put, find-put_self}
use akar_ai.Database.{Db, Listing}
use akar_ai.Tenant.{TenantContext, require_tenant, ensure_tenant_match}
use akar_ai.Domain.{listing_status_transitions, allows}
use akar_ai.Domain.Laws.{listing_allows_iff}
use akar_ai.Listings.Service.{
  ListingData, check_status, create_listing, update_listing, archive_listing,
}

-- What a listing has become from `old`: archived since the same time, for the same tenant.
pub record StaysArchived (old new : Listing) : Type 0 where
  pub same_tenant : new.agency_tenant_id ≡ old.agency_tenant_id
  pub archived : new.status ≡ "archived"
  pub since : new.archived_at ≡ old.archived_at

pub create_listing-writes :
    (tenant : Option TenantContext) (listing_id : ℕ) (body : ListingData) (db : Db) (l : Listing)
    → (create_listing tenant listing_id body db).0 ≡ ok l
    → (create_listing tenant listing_id body db).1.listings ≡ put listing_id l db.listings
unfolding create_listing require_tenant
create_listing-writes none listing_id body db l done = absurd (ground arith)
create_listing-writes (some ctx) listing_id body db l done = elim (Option-cases ctx.tenant_id) [
  | inl missing ↦ absurd (ground (arith, missing))
  | inr (t, p) ↦ ground (arith, p)
]

pub record Edited (tenant : Option TenantContext) (listing_id : ℕ) (db : Db) (new : Listing)
    (db' : Db) : Type 0 where
  pub old : Listing
  pub found : find listing_id db.listings ≡ some old
  pub permitted : ensure_tenant_match tenant old.agency_tenant_id ≡ ok tt
  pub keeps : old.status ≡ "archived" → StaysArchived old new
  pub written : db'.listings ≡ put listing_id new db.listings

pub update_listing-Edited :
    (tenant : Option TenantContext) (now listing_id : ℕ) (body : ListingData) (db : Db)
    (l : Listing)
    → (update_listing tenant now listing_id body db).0 ≡ ok l
    → Edited tenant listing_id db l (update_listing tenant now listing_id body db).1
unfolding update_listing check_status
update_listing-Edited tenant now listing_id body db l done =
    elim (Option-cases (find listing_id db.listings)) [
      | inl missing ↦ absurd (ground (arith, missing))
      | inr (old, e) ↦ elim (Option-cases body.status) [
        | inl silent ↦ record {
          old = old;
          found = e;
          permitted = ground (arith, e, silent);
          keeps = λ archived. record {
            same_tenant = ground (arith, e, silent);
            archived = ground (arith, e, silent);
            since = ground (arith, e, silent);
          };
          written = ground (arith, e, silent);
        }
        | inr (new_status, asked) ↦
            let allowed : allows listing_status_transitions old.status new_status ≡ true =
              ground (arith, e, asked) in
            record {
              old = old;
              found = e;
              permitted = ground (arith, e, asked);
              keeps = λ archived. absurd (
                  ground (
                    arith,
                    archived,
                    (listing_allows_iff old.status new_status).0 allowed,
                    str_eq_iff "inactive" "archived",
                    str_eq_iff "active" "archived",
                  ));
              written = ground (arith, e, asked);
            }
      ]
    ]

-- After a call of `archive_listing` the listing is archived, and one that was archived already is
-- as it was.
pub record Archived (tenant : Option TenantContext) (now listing_id : ℕ) (db : Db) (db' : Db)
    : Type 0 where
  pub old : Listing
  pub found : find listing_id db.listings ≡ some old
  pub permitted : ensure_tenant_match tenant old.agency_tenant_id ≡ ok tt
  pub new : Listing
  pub archived : new.status ≡ "archived"
  pub same_tenant : new.agency_tenant_id ≡ old.agency_tenant_id
  pub keeps : old.status ≡ "archived" → new ≡ old
  pub found_after : find listing_id db'.listings ≡ some new
  pub elsewhere : (id : ℕ) → (listing_id == id) ≡ false → find id db'.listings ≡ find id db.listings

pub archive_listing-Archived :
    (tenant : Option TenantContext) (now listing_id : ℕ) (db : Db) (u : Unit {0})
    → (archive_listing tenant now listing_id db).0 ≡ ok u
    → Archived tenant now listing_id db (archive_listing tenant now listing_id db).1
unfolding archive_listing require_tenant
archive_listing-Archived none now listing_id db u done = absurd (ground arith)
archive_listing-Archived (some ctx) now listing_id db u done =
    elim (Option-cases (find listing_id db.listings)) [
      | inl missing ↦ absurd (ground (arith, missing))
      | inr (old, e) ↦ elim (Bool-cases (str_eq old.status "archived")) [
        | inl already ↦ record {
          old = old;
          found = e;
          permitted = ground (arith, e, already);
          new = old;
          archived = ground (arith, already, str_eq_iff old.status "archived");
          same_tenant = refl;
          keeps = λ a. refl;
          found_after = ground (arith, e, already);
          elsewhere = λ id other. ground (arith, e, already);
        }
        | inr live ↦
            let new : Listing = record old {
              status = "archived";
              archived_at = some now;
              updated_by_user_id = ctx.actor_id;
            } in
            let written : (archive_listing (some ctx) now listing_id db).1.listings
                ≡ put listing_id new db.listings =
              ground (arith, e, live) in
            record {
              old = old;
              found = e;
              permitted = ground (arith, e, live);
              new = new;
              archived = refl;
              same_tenant = refl;
              keeps = λ a. absurd (ground (arith, live, a, str_eq_iff old.status "archived"));
              found_after = rw (written, find-put_self);
              elsewhere = λ id other. rw (written, find-put) (ground (arith, other));
            }
      ]
    ]
