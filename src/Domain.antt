-- ===== src/Domain.antt =====
-- backend/app/common/domain.py: the statuses of listings, leads and viewings, and the transitions
-- that the services allow.
pub mod Laws
use akar_ai.Prelude.{String, Bool, List, [], ◌∷◌, lookup, or_else, contains}

abbrev pub TransitionTable : Type 0
TransitionTable = List (String × List String)

unfoldable pub listing_status_transitions : TransitionTable
listing_status_transitions =
    ("inactive", "active" ∷ []) ∷ ("active", "inactive" ∷ "archived" ∷ []) ∷ ("archived", []) ∷ []

unfoldable pub valid_listing_statuses : List String
valid_listing_statuses = "active" ∷ "inactive" ∷ "archived" ∷ []

unfoldable pub lead_status_transitions : TransitionTable
lead_status_transitions =
    ("new", "reviewed" ∷ "closed" ∷ []) ∷ ("reviewed", "closed" ∷ []) ∷ ("closed", []) ∷ []

unfoldable pub valid_lead_statuses : List String
valid_lead_statuses = "new" ∷ "reviewed" ∷ "closed" ∷ []

unfoldable pub viewing_status_transitions : TransitionTable
viewing_status_transitions =
    ("scheduled", "cancelled_by_user" ∷ "cancelled_by_agency" ∷ "completed" ∷ "no_show" ∷ [])
    ∷ ("cancelled_by_user", [])
    ∷ ("cancelled_by_agency", [])
    ∷ ("completed", [])
    ∷ ("no_show", [])
    ∷ []

unfoldable pub valid_viewing_statuses : List String
valid_viewing_statuses =
    "scheduled" ∷ "cancelled_by_user" ∷ "cancelled_by_agency" ∷ "completed" ∷ "no_show" ∷ []

-- `new_status in TRANSITIONS.get(status, [])`
unfoldable pub allows : TransitionTable → String → String → Bool
allows table status new_status = contains (or_else (lookup status table) []) new_status
