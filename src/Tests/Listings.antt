-- ===== src/Tests/Listings.antt =====
-- Runs of the listing requests.
use akar_ai.Prelude.{refl, none, some, List, [], ◌∷◌, nat_key}
use akar_ai.Table.{find}
use akar_ai.Database.{Db, Listing}
use akar_ai.Listings.Service.{ListingData}
use akar_ai.Listings.Requests.{ListingRequest, edit, archive, serve_listings}
use akar_ai.Listings.Archive.{IsArchivedIn, archived_listing_stays}
use akar_ai.Tests.Data.{agent, villa, agency}

abbrev sold : Listing
sold = record villa { status = "archived"; archived_at = some 3 }

abbrev with_sold : Db
with_sold = record agency { listings = (1, sold) ∷ [] }

abbrev reopening : ListingData
reopening = record { fields = ("title", some "Villa") ∷ []; status = some "active" }

abbrev retitling : ListingData
retitling = record { fields = ("title", some "Villa") ∷ []; status = none }

-- A request to reopen the listing, one to change its title, one to archive it again.
abbrev attempts : List ListingRequest
attempts =
    edit (some agent) 10 1 reopening
    ∷ edit (some agent) 11 1 retitling
    ∷ archive (some agent) 12 1
    ∷ []

archived_listing_stays_example : IsArchivedIn 1 sold (serve_listings with_sold attempts)
archived_listing_stays_example =
    archived_listing_stays 1 sold with_sold attempts (unfold find in refl) refl (tt, (tt, (tt, tt)))
