-- ===== src/Photos/State.antt =====
-- The rows of photos, the media audit log and the object storage. The storage is MinIO's: a call
-- returns or raises, which a parameter says for each call, and what was stored stays stored when the
-- database rolls back.
use akar_ai.Prelude.{ℕ, String, Option, List, ◌∷◌, [], ◌++◌}
use akar_ai.Exec.{Exec, modify}
use akar_ai.Table.{Table}
use akar_ai.Database.{Db}

-- listings/models.py; a client's display order is not negative
pub record ListingPhotoMetadata : Type 0 where
  pub listing_id : ℕ
  pub agency_tenant_id : ℕ
  pub object_key : String
  pub caption : Option String
  pub alt_text : Option String
  pub display_order : ℕ
  pub status : String
  pub content_type : Option String
  pub file_size_bytes : Option ℕ
  pub width : Option ℕ
  pub height : Option ℕ

-- common/events.py
pub record MediaAuditLog : Type 0 where
  pub event_name : String
  pub agency_tenant_id : Option ℕ
  pub listing_photo_metadata_id : ℕ
  pub actor_user_id : Option ℕ
  pub result : String

pub record Gallery : Type 0 where
  pub db : Db
  pub photos : Table ℕ ListingPhotoMetadata
  pub media_audit : List MediaAuditLog
  pub objects : Table String (List ℕ)

-- An action on the tables of `Db`.
abbrev pub on_db : {A : Type 0} → Exec Db A → Exec Gallery A
on_db m g = ((m g.db).0, record g { db = (m g.db).1 })

-- `write_media_audit_log`
unfoldable pub write_media_audit_log : MediaAuditLog → Exec Gallery (Unit {0})
write_media_audit_log log = modify λ g. record g { media_audit = g.media_audit ++ log ∷ [] }
