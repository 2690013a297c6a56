-- ===== src/Listings/Archive.antt =====
-- An archived listing stays archived, and archiving twice is archiving once.
use akar_ai.Prelude.{
  ℕ, ◌==◌, nat_beq_iff, ◌≡◌, subst, refl, false, Option, none, some, List, [], ◌∷◌, arith, nat_key,
  Bool-cases, inl, inr, str_eq_iff,
}
use akar_ai.Exec.{ok, transaction-cases}
use akar_ai.Table.{find, put, find-put}
use akar_ai.Database.{Db, Listing}
use akar_ai.Tenant.{TenantContext, require_tenant, ensure_tenant_match}
use akar_ai.Domain.{listing_status_transitions, allows}
use akar_ai.Domain.Laws.{listing_allows_iff}
use akar_ai.Listings.Service.{create_listing, update_listing, archive_listing}
use akar_ai.Listings.Requests.{
  ListingRequest, add, edit, archive, handle_listing, serve_listings, IsFreshListing,
  AreFreshListings,
}
use akar_ai.Listings.Effects.{
  StaysArchived, Archived, create_listing-writes, update_listing-Edited, archive_listing-Archived,
}

abbrev IsRequired : Option TenantContext → Type 0
IsRequired tenant = (ctx : TenantContext) × (require_tenant tenant ≡ ok ctx)

required :
    (tenant : Option TenantContext) (now listing_id : ℕ) (db : Db) (u : Unit {0})
    → (archive_listing tenant now listing_id db).0 ≡ ok u
    → IsRequired tenant
unfolding archive_listing require_tenant
required none now listing_id db u done = absurd (ground arith)
required (some ctx) now listing_id db u done = (ctx, ground arith)

-- A listing that is archived is left alone.
archived-archive_listing :
    (tenant : Option TenantContext) (now listing_id : ℕ) (db : Db) (listing : Listing)
    → IsRequired tenant
    → ensure_tenant_match tenant listing.agency_tenant_id ≡ ok tt
    → find listing_id db.listings ≡ some listing
    → listing.status ≡ "archived"
    → archive_listing tenant now listing_id db ≡ (ok tt, db)
unfolding archive_listing
archived-archive_listing tenant now listing_id db listing (ctx, t) m e archived =
    ground (arith, t, m, e, str_eq_iff listing.status "archived")

module _ (id : ℕ) (first : Listing) where
  -- The listing `first`, archived, is still in the database.
  abbrev pub IsArchivedIn : Db → Type 0
  IsArchivedIn db = (l : Listing) × (find id db.listings ≡ some l) × StaysArchived first l

  StaysArchived-trans :
      (a b : Listing) → StaysArchived first a → StaysArchived a b → StaysArchived first b
  StaysArchived-trans a b f g = record {
    same_tenant = cc (f.same_tenant, g.same_tenant);
    archived = g.archived;
    since = cc (f.since, g.since);
  }

  -- A write of one row, which keeps an archived listing archived.
  put-IsArchivedIn :
      (j : ℕ) (new : Listing) (db db' : Db)
      → db'.listings ≡ put j new db.listings
      → ((old : Listing)
          → find j db.listings ≡ some old
          → old.status ≡ "archived"
          → StaysArchived old new)
      → IsArchivedIn db
      → IsArchivedIn db'
  put-IsArchivedIn j new db db' written keeps (l, found, stays) = elim (Bool-cases (j == id)) [
    | inl same ↦ (
      new,
      rw (written, find-put) (ground (arith, same)),
      StaysArchived-trans l new stays
          (keeps l (ground (arith, found, same, nat_beq_iff j id)) stays.archived),
    )
    | inr other ↦ (l, rw (written, find-put) (ground (arith, other, found)), stays)
  ]

  handle_listing-IsArchivedIn :
      (db : Db) (r : ListingRequest)
      → IsFreshListing db r
      → IsArchivedIn db
      → IsArchivedIn (handle_listing r db)
  unfolding handle_listing
  handle_listing-IsArchivedIn db (add tenant listing_id body) fresh h =
      elim (transaction-cases (create_listing tenant listing_id body) db) [
        | inl same ↦ rw same h
        | inr (l, e, written) ↦ rw written (
            put-IsArchivedIn listing_id l db (create_listing tenant listing_id body db).1
              (create_listing-writes tenant listing_id body db l e)
              (λ old found archived. absurd (ground (arith, fresh, found))) h)
      ]
  handle_listing-IsArchivedIn db (edit tenant now listing_id body) fresh h =
      elim (transaction-cases (update_listing tenant now listing_id body) db) [
        | inl same ↦ rw same h
        | inr (l, e, written) ↦
            let c = update_listing-Edited tenant now listing_id body db l e in
            rw written (
              put-IsArchivedIn listing_id l db (update_listing tenant now listing_id body db).1
                c.written
                (λ old found archived.
                  let same : c.old ≡ old = ground (arith, c.found, found) in
                  subst (λ x. StaysArchived x l) same (c.keeps (ground (arith, same, archived))))
                h)
      ]
  handle_listing-IsArchivedIn db (archive tenant now listing_id) fresh h =
      elim (transaction-cases (archive_listing tenant now listing_id) db) [
        | inl same ↦ rw same h
        | inr (u, e, written) ↦
            rw written (kept (archive_listing-Archived tenant now listing_id db u e) h)
      ]
    where
      kept : {db' : Db} → Archived tenant now listing_id db db' → IsArchivedIn db → IsArchivedIn db'
      kept c (l, found, stays) = elim (Bool-cases (listing_id == id)) [
        | inl same ↦
            let old_is : c.old ≡ l =
              ground (arith, c.found, found, same, nat_beq_iff listing_id id) in
            let new_is : c.new ≡ l =
              ground (arith, old_is, c.keeps (ground (arith, old_is, stays.archived))) in
            (l, ground (arith, c.found_after, new_is, same, nat_beq_iff listing_id id), stays)
        | inr other ↦ (l, ground (arith, c.elsewhere id other, found), stays)
      ]

-- Whatever requests an agency's members and the platform's make, with fresh ids for new listings,
-- an archived listing stays archived since the same time and for the same tenant.
pub archived_listing_stays :
    (id : ℕ) (first : Listing) (db : Db) (rs : List ListingRequest)
    → find id db.listings ≡ some first
    → first.status ≡ "archived"
    → AreFreshListings db rs
    → IsArchivedIn id first (serve_listings db rs)
unfolding serve_listings
archived_listing_stays id first db rs found archived fresh =
    serves db rs fresh
      (first, found, record { same_tenant = refl; archived = archived; since = refl })
  where
    serves :
        (db : Db) (rs : List ListingRequest)
        → AreFreshListings db rs
        → IsArchivedIn id first db
        → IsArchivedIn id first (serve_listings db rs)
    serves db [] fresh h = h
    serves db (r ∷ rs) (fresh, later) h =
        serves (handle_listing r db) rs later (handle_listing-IsArchivedIn id first db r fresh h)

-- Archiving a listing again, at any later time, changes nothing: the archiving time is the first
-- one.
pub archive_listing_twice :
    (tenant : Option TenantContext) (now later listing_id : ℕ) (db : Db) (u : Unit {0})
    → (archive_listing tenant now listing_id db).0 ≡ ok u
    → archive_listing tenant later listing_id (archive_listing tenant now listing_id db).1
      ≡ (ok tt, (archive_listing tenant now listing_id db).1)
archive_listing_twice tenant now later listing_id db u done =
    let c = archive_listing-Archived tenant now listing_id db u done in
    archived-archive_listing tenant later listing_id (archive_listing tenant now listing_id db).1
      c.new (required tenant now listing_id db u done) (rw c.same_tenant c.permitted) c.found_after
      c.archived

-- `archive_listing` does not consult the transition table: it archives an inactive listing, which
-- the table does not allow and `update_listing` refuses.
pub archive_listing_skips_table :
    (ctx : TenantContext) (now listing_id : ℕ) (db : Db) (listing : Listing)
    → require_tenant (some ctx) ≡ ok ctx
    → ensure_tenant_match (some ctx) listing.agency_tenant_id ≡ ok tt
    → find listing_id db.listings ≡ some listing
    → listing.status ≡ "inactive"
    → ((archive_listing (some ctx) now listing_id db).0 ≡ ok tt)
      × (allows listing_status_transitions listing.status "archived" ≡ false)
unfolding archive_listing
archive_listing_skips_table ctx now listing_id db listing t m e inactive = (
  ground (arith, t, m, e),
  elim (Bool-cases (allows listing_status_transitions listing.status "archived")) [
    | inl yes_it_does ↦ absurd (
        ground (
          arith,
          inactive,
          (listing_allows_iff listing.status "archived").0 yes_it_does,
          str_eq_iff "inactive" "active",
          str_eq_iff "archived" "active",
        ))
    | inr refuses ↦ refuses
  ],
)
