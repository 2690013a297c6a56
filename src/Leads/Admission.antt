-- ===== src/Leads/Admission.antt =====
-- When an inquiry is accepted, and when a callback is.
use akar_ai.Prelude.{
  ℕ, String, ◌≡◌, ◌≢◌, ◌⊎◌, ◌↔◌, true, Option, some, or_else, strip, [], ◌∷◌, arith, nat_key,
  str_eq_iff, format,
}
use akar_ai.Exec.{ok, err, forbidden}
use akar_ai.Table.{find}
use akar_ai.Database.{Db, Listing, User}
use akar_ai.Leads.Inquiries.{
  has_text, get_lead_profile_missing_fields, is_empty, new_lead, create_inquiry,
}
use akar_ai.Leads.Callbacks.{CallbackBody, is_valid_body, admit_callback, classification_callback}

-- A profile is complete when it has a name and an e-mail address or a phone number.
pub profile_complete_iff :
    (user : User)
    → (is_empty (get_lead_profile_missing_fields user) ≡ true) ↔ (
        (has_text user.name ≡ true) × ((has_text user.email ≡ true) ⊎ (has_text user.phone ≡ true)))
unfolding get_lead_profile_missing_fields
profile_complete_iff user = ground arith

-- On a known listing and for a known user, an inquiry is accepted exactly when the listing is
-- active, the user has a name and a contact, and the message is not blank; the lead it makes is the
-- listing's tenant's, new, and waits for the spam stage.
pub create_inquiry-ok_iff :
    (lead_id listing_id user_id : ℕ) (message : Option String) (db : Db) (listing : Listing)
    (user : User)
    → find listing_id db.listings ≡ some listing
    → find user_id db.users ≡ some user
    → ((create_inquiry lead_id listing_id user_id message db).0
        ≡ ok (new_lead listing listing_id user user_id (strip (or_else message ""))))
      ↔ ((listing.status ≡ "active")
          × (has_text user.name ≡ true)
          × ((has_text user.email ≡ true) ⊎ (has_text user.phone ≡ true))
          × (strip (or_else message "") ≢ ""))
unfolding create_inquiry
create_inquiry-ok_iff lead_id listing_id user_id message db listing user e p = ground (
  arith,
  e,
  p,
  profile_complete_iff user,
  str_eq_iff listing.status "active",
  str_eq_iff (strip (or_else message "")) "",
)

-- A callback writes nothing unless the service has a callback token and the request carries it.
pub callback_without_token :
    (token authorization : String) (body : CallbackBody) (db : Db)
    → is_valid_body body ≡ true
    → (token ≡ "") ⊎ (authorization ≢ format ("Bearer " ∷ token ∷ []))
    → classification_callback token authorization body db
      ≡ (err (forbidden "Invalid callback authorization"), db)
unfolding classification_callback admit_callback
callback_without_token token authorization body db valid without = rw refused
  where
    refused :
        admit_callback token authorization body ≡ err (forbidden "Invalid callback authorization")
    refused = ground (
      arith,
      valid,
      without,
      str_eq_iff token "",
      str_eq_iff authorization (format ("Bearer " ∷ token ∷ [])),
    )
