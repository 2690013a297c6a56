-- ===== src/Tests/Data.antt =====
-- A small agency: tenant 7 with an active listing, a slot with two seats, a user with a complete
-- profile, an agent of the agency.
use akar_ai.Prelude.{true, false, none, some, [], ◌∷◌, second, ◌*◌}
use akar_ai.Database.{Db, Listing, ListingViewingSlot, User, RlsContext}
use akar_ai.Tenant.{TenantContext}

abbrev pub agent : TenantContext
agent = record {
  actor_id = some 50;
  role = some "agency_manager";
  permissions = [];
  tenant_id = some 7;
  membership_id = some 1;
  is_platform_actor = false;
}

abbrev pub villa : Listing
villa = record {
  agency_tenant_id = 7;
  attributes = [];
  status = "active";
  archived_at = none;
  created_by_user_id = none;
  updated_by_user_id = none;
}

abbrev pub morning : ListingViewingSlot
morning = record {
  listing_id = 1;
  agency_tenant_id = 7;
  starts_at = 1000 * second;
  ends_at = 2000 * second;
  capacity = 2;
  reserved_count = 0;
  status = "active";
  created_by_user_id = some 50;
}

abbrev pub buyer : User
buyer = record {
  email = some "a@b.c";
  name = some "Ada";
  phone = none;
  password_hash = "h:old";
  role_id = none;
  is_active = true;
  status = "active";
  last_login_at = none;
  password_changed_at = none;
}

abbrev pub no_context : RlsContext
no_context = record { tenant_id = none; user_id = none; role = ""; is_platform_admin = false }

abbrev pub agency : Db
agency = record {
  listings = (1, villa) ∷ [];
  slots = (2, morning) ∷ [];
  viewings = [];
  viewing_history = [];
  leads = [];
  spam_results = [];
  level_results = [];
  reviewed = [];
  users = (9, buyer) ∷ [];
  refresh_sessions = [];
  outbox = [];
  domain_logs = [];
  rls = no_context;
}
