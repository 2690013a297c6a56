-- ===== src/Database.antt =====
-- The rows that the services read and write, from the models.py of listings, viewings, leads,
-- users and auth, and the outbox and log rows of backend/app/common/events.py; the session
-- context that backend/app/common/rls.py sets. Ids are numbers, a timestamp is a number of
-- microseconds. A column that no modelled operation reads or writes (created_at, updated_at, ...)
-- is left out.
use akar_ai.Prelude.{ℕ, String, Bool, Option, List, [], ◌∷◌, ◌++◌}
use akar_ai.Table.{Table}
use akar_ai.Exec.{Exec, modify}

-- listings/models.py; the descriptive columns are a dictionary from column name to value
pub record Listing : Type 0 where
  pub agency_tenant_id : ℕ
  pub attributes : List (String × String)
  pub status : String
  pub archived_at : Option ℕ
  pub created_by_user_id : Option ℕ
  pub updated_by_user_id : Option ℕ

-- viewings/models.py
pub record ListingViewingSlot : Type 0 where
  pub listing_id : ℕ
  pub agency_tenant_id : ℕ
  pub starts_at : ℕ
  pub ends_at : ℕ
  pub capacity : ℕ
  pub reserved_count : ℕ
  pub status : String
  pub created_by_user_id : Option ℕ

pub record ScheduledViewing : Type 0 where
  pub agency_tenant_id : ℕ
  pub listing_id : ℕ
  pub viewing_slot_id : ℕ
  pub user_id : Option ℕ
  pub status : String
  pub scheduled_start_at : ℕ
  pub scheduled_end_at : ℕ
  pub notes : Option String

pub record ScheduledViewingStatusHistory : Type 0 where
  pub scheduled_viewing_id : ℕ
  pub agency_tenant_id : ℕ
  pub old_status : Option String
  pub new_status : String
  pub changed_by_user_id : Option ℕ
  pub reason : Option String

-- leads/models.py
pub record Lead : Type 0 where
  pub agency_tenant_id : ℕ
  pub listing_id : ℕ
  pub user_id : Option ℕ
  pub status : String
  pub processing_status : String
  pub name : Option String
  pub email : Option String
  pub phone : Option String
  pub message : Option String
  pub source : Option String
  pub closed_at : Option ℕ

-- LeadSpamResult and LeadLevelResult have the same columns but for the name of one: `label` is
-- `label` there and `level` here. `score` is in ten-thousandths, as the column Numeric(5, 4) is.
pub record StageResult : Type 0 where
  pub agency_tenant_id : ℕ
  pub status : String
  pub label : Option String
  pub score : Option ℕ
  pub details : Option String
  pub retry_count : ℕ
  pub last_error : Option String
  pub idempotency_key : Option String

pub record ReviewedLeadRecord : Type 0 where
  pub lead_id : ℕ
  pub agency_tenant_id : ℕ
  pub reviewed_by_user_id : Option ℕ
  pub outcome : Option String
  pub notes : Option String

-- users/models.py
pub record User : Type 0 where
  pub email : Option String
  pub name : Option String
  pub phone : Option String
  pub password_hash : String
  pub role_id : Option ℕ
  pub is_active : Bool
  pub status : String
  pub last_login_at : Option ℕ
  pub password_changed_at : Option ℕ

-- auth/models.py
pub record RefreshSession : Type 0 where
  pub user_id : ℕ
  pub token_hash : String
  pub family_id : String
  pub issued_at : ℕ
  pub expires_at : ℕ
  pub last_used_at : Option ℕ
  pub revoked_at : Option ℕ
  pub revocation_reason : Option String
  pub replaced_by_session_id : Option ℕ

-- common/events.py
pub record OutboxEvent : Type 0 where
  pub event_name : String
  pub aggregate_type : Option String
  pub aggregate_id : Option String
  pub idempotency_key : String
  pub payload : List (String × Option String)

pub record DomainEventLog : Type 0 where
  pub event_name : String
  pub aggregate_type : Option String
  pub aggregate_id : Option String
  pub payload : List (String × Option String)
  pub agency_tenant_id : Option ℕ
  pub actor_user_id : Option ℕ

-- The transaction-local settings app.tenant_id, app.user_id, app.role and app.is_platform_admin.
pub record RlsContext : Type 0 where
  pub tenant_id : Option ℕ
  pub user_id : Option ℕ
  pub role : String
  pub is_platform_admin : Bool

pub record Db : Type 0 where
  pub listings : Table ℕ Listing
  pub slots : Table ℕ ListingViewingSlot
  pub viewings : Table ℕ ScheduledViewing
  pub viewing_history : List ScheduledViewingStatusHistory
  pub leads : Table ℕ Lead
  pub spam_results : Table ℕ StageResult
  pub level_results : Table ℕ StageResult
  pub reviewed : List ReviewedLeadRecord
  pub users : Table ℕ User
  pub refresh_sessions : Table ℕ RefreshSession
  pub outbox : List OutboxEvent
  pub domain_logs : List DomainEventLog
  pub rls : RlsContext

-- `write_domain_event_log`
unfoldable pub write_domain_event_log : DomainEventLog → Exec Db (Unit {0})
write_domain_event_log log = modify (λ db. record db { domain_logs = db.domain_logs ++ log ∷ [] })

-- `publish_outbox_event_in_session`
unfoldable pub publish_outbox_event_in_session : OutboxEvent → Exec Db (Unit {0})
publish_outbox_event_in_session event =
    modify (λ db. record db { outbox = db.outbox ++ event ∷ [] })

-- `apply_rls_context_to_session`
unfoldable pub apply_rls_context_to_session : RlsContext → Exec Db (Unit {0})
apply_rls_context_to_session ctx = modify (λ db. record db { rls = ctx })
