-- ===== src/Leads/Classified.antt =====
-- What a classification callback of leads/service.py has found and what it has written, and that a
-- callback delivered twice acts once.
use akar_ai.Prelude.{
  ℕ, nat_beq_iff, ◌≡◌, ◌⊎◌, [], ◌∷◌, ◌++◌, none, some, arith, nat_key, Option-cases, inl, inr,
}
use akar_ai.Exec.{ok}
use akar_ai.Table.{find, put}
use akar_ai.Database.{Db, Lead, StageResult}
use akar_ai.Leads.Callbacks.{
  StageUpdate, with_key, result_event, upsert_result, after_spam, after_level, lead_of_callback,
  store_spam, store_level, process_spam_callback, process_level_callback,
}
use akar_ai.Leads.Effects.{LeadsWrote, LeadsAside}

abbrev pub SpamStored : ℕ → ℕ → StageUpdate → Lead → Db → Db → Type 0
SpamStored lead_id tenant_id u lead db db' =
    LeadsWrote db'
      (put lead_id (record lead { processing_status = after_spam u lead.processing_status })
        db.leads)
      (put lead_id (upsert_result tenant_id u (find lead_id db.spam_results)) db.spam_results)
      db.level_results
    × LeadsAside db db' db.outbox db.reviewed
        (db.domain_logs ++ result_event "lead.processing.spam_result" "label" lead_id lead u ∷ [])

abbrev pub LevelStored : ℕ → ℕ → StageUpdate → Lead → Db → Db → Type 0
LevelStored lead_id tenant_id u lead db db' =
    LeadsWrote db'
      (put lead_id (record lead { processing_status = after_level u lead.processing_status })
        db.leads)
      db.spam_results
      (put lead_id (upsert_result tenant_id u (find lead_id db.level_results)) db.level_results)
    × LeadsAside db db' db.outbox db.reviewed
        (db.domain_logs ++ result_event "lead.processing.level_result" "level" lead_id lead u ∷ [])

pub data Classified (lead_id tenant_id : ℕ) (u : StageUpdate) (db : Db) : Db → Type 0 where
  replayed :
      (row : StageResult)
      → (with_key u.idempotency_key (find lead_id db.spam_results) ≡ some row)
        ⊎ (with_key u.idempotency_key (find lead_id db.level_results) ≡ some row)
      → Classified lead_id tenant_id u db db
  spam_stored :
      (lead : Lead) {db' : Db}
      → find lead_id db.leads ≡ some lead
      → lead.agency_tenant_id ≡ tenant_id
      → SpamStored lead_id tenant_id u lead db db'
      → Classified lead_id tenant_id u db db'
  level_stored :
      (lead : Lead) {db' : Db}
      → find lead_id db.leads ≡ some lead
      → lead.agency_tenant_id ≡ tenant_id
      → LevelStored lead_id tenant_id u lead db db'
      → Classified lead_id tenant_id u db db'

module _ (lead_id tenant_id : ℕ) (u : StageUpdate) (db : Db) where
  pub spam_found :
      (r : StageResult)
      → (process_spam_callback lead_id tenant_id u db).0 ≡ ok r
      → (lead : Lead) × (find lead_id db.leads ≡ some lead) × (lead.agency_tenant_id ≡ tenant_id)
  unfolding process_spam_callback lead_of_callback
  spam_found r h = elim (Option-cases (find lead_id db.leads)) [
    | inl missing ↦ absurd (ground (arith, missing))
    | inr (lead, e) ↦ (lead, e, ground (arith, e, nat_beq_iff lead.agency_tenant_id tenant_id))
  ]

  module _ (lead : Lead) (e : find lead_id db.leads ≡ some lead)
      (own : lead.agency_tenant_id ≡ tenant_id) where
    pub spam_replays :
        (row : StageResult)
        → with_key u.idempotency_key (find lead_id db.spam_results) ≡ some row
        → process_spam_callback lead_id tenant_id u db ≡ (ok row, db)
    unfolding process_spam_callback lead_of_callback store_spam
    spam_replays row p = ground (arith, e, nat_beq_iff lead.agency_tenant_id tenant_id)

    pub spam_stores :
        with_key u.idempotency_key (find lead_id db.spam_results) ≡ none
        → ((process_spam_callback lead_id tenant_id u db).0
            ≡ ok (upsert_result tenant_id u (find lead_id db.spam_results)))
          × SpamStored lead_id tenant_id u lead db (process_spam_callback lead_id tenant_id u db).1
    unfolding process_spam_callback lead_of_callback store_spam
    spam_stores p = (
      ground (arith, e, nat_beq_iff lead.agency_tenant_id tenant_id),
      (
        record {
          leads_are = ground (arith, e, nat_beq_iff lead.agency_tenant_id tenant_id);
          spam_is = ground (arith, e, nat_beq_iff lead.agency_tenant_id tenant_id);
          level_is = ground (arith, e, nat_beq_iff lead.agency_tenant_id tenant_id);
        },
        record {
          outbox_is = ground (arith, e, nat_beq_iff lead.agency_tenant_id tenant_id);
          reviewed_is = ground (arith, e, nat_beq_iff lead.agency_tenant_id tenant_id);
          logs_are = ground (arith, e, nat_beq_iff lead.agency_tenant_id tenant_id);
          listings_are = ground (arith, e, nat_beq_iff lead.agency_tenant_id tenant_id);
          slots_are = ground (arith, e, nat_beq_iff lead.agency_tenant_id tenant_id);
          viewings_are = ground (arith, e, nat_beq_iff lead.agency_tenant_id tenant_id);
          history_is = ground (arith, e, nat_beq_iff lead.agency_tenant_id tenant_id);
          users_are = ground (arith, e, nat_beq_iff lead.agency_tenant_id tenant_id);
          sessions_are = ground (arith, e, nat_beq_iff lead.agency_tenant_id tenant_id);
          context_is = ground (arith, e, nat_beq_iff lead.agency_tenant_id tenant_id);
        },
      ),
    )

  pub process_spam_callback-Classified :
      (r : StageResult)
      → (process_spam_callback lead_id tenant_id u db).0 ≡ ok r
      → Classified lead_id tenant_id u db (process_spam_callback lead_id tenant_id u db).1
  process_spam_callback-Classified r h =
      let (lead, e, own) = spam_found r h in
      elim (Option-cases (with_key u.idempotency_key (find lead_id db.spam_results))) [
        | inl fresh ↦ spam_stored lead e own (spam_stores lead e own fresh).1
        | inr (row, p) ↦ rw (spam_replays lead e own row p) (replayed row (inl p))
      ]

module _ (lead_id tenant_id : ℕ) (u : StageUpdate) (db : Db) where
  pub level_found :
      (r : StageResult)
      → (process_level_callback lead_id tenant_id u db).0 ≡ ok r
      → (lead : Lead) × (find lead_id db.leads ≡ some lead) × (lead.agency_tenant_id ≡ tenant_id)
  unfolding process_level_callback lead_of_callback
  level_found r h = elim (Option-cases (find lead_id db.leads)) [
    | inl missing ↦ absurd (ground (arith, missing))
    | inr (lead, e) ↦ (lead, e, ground (arith, e, nat_beq_iff lead.agency_tenant_id tenant_id))
  ]

  module _ (lead : Lead) (e : find lead_id db.leads ≡ some lead)
      (own : lead.agency_tenant_id ≡ tenant_id) where
    pub level_replays :
        (row : StageResult)
        → with_key u.idempotency_key (find lead_id db.level_results) ≡ some row
        → process_level_callback lead_id tenant_id u db ≡ (ok row, db)
    unfolding process_level_callback lead_of_callback store_level
    level_replays row p = ground (arith, e, nat_beq_iff lead.agency_tenant_id tenant_id)

    pub level_stores :
        with_key u.idempotency_key (find lead_id db.level_results) ≡ none
        → ((process_level_callback lead_id tenant_id u db).0
            ≡ ok (upsert_result tenant_id u (find lead_id db.level_results)))
          × LevelStored lead_id tenant_id u lead db
              (process_level_callback lead_id tenant_id u db).1
    unfolding process_level_callback lead_of_callback store_level
    level_stores p = (
      ground (arith, e, nat_beq_iff lead.agency_tenant_id tenant_id),
      (
        record {
          leads_are = ground (arith, e, nat_beq_iff lead.agency_tenant_id tenant_id);
          spam_is = ground (arith, e, nat_beq_iff lead.agency_tenant_id tenant_id);
          level_is = ground (arith, e, nat_beq_iff lead.agency_tenant_id tenant_id);
        },
        record {
          outbox_is = ground (arith, e, nat_beq_iff lead.agency_tenant_id tenant_id);
          reviewed_is = ground (arith, e, nat_beq_iff lead.agency_tenant_id tenant_id);
          logs_are = ground (arith, e, nat_beq_iff lead.agency_tenant_id tenant_id);
          listings_are = ground (arith, e, nat_beq_iff lead.agency_tenant_id tenant_id);
          slots_are = ground (arith, e, nat_beq_iff lead.agency_tenant_id tenant_id);
          viewings_are = ground (arith, e, nat_beq_iff lead.agency_tenant_id tenant_id);
          history_is = ground (arith, e, nat_beq_iff lead.agency_tenant_id tenant_id);
          users_are = ground (arith, e, nat_beq_iff lead.agency_tenant_id tenant_id);
          sessions_are = ground (arith, e, nat_beq_iff lead.agency_tenant_id tenant_id);
          context_is = ground (arith, e, nat_beq_iff lead.agency_tenant_id tenant_id);
        },
      ),
    )

  pub process_level_callback-Classified :
      (r : StageResult)
      → (process_level_callback lead_id tenant_id u db).0 ≡ ok r
      → Classified lead_id tenant_id u db (process_level_callback lead_id tenant_id u db).1
  process_level_callback-Classified r h =
      let (lead, e, own) = level_found r h in
      elim (Option-cases (with_key u.idempotency_key (find lead_id db.level_results))) [
        | inl fresh ↦ level_stored lead e own (level_stores lead e own fresh).1
        | inr (row, p) ↦ rw (level_replays lead e own row p) (replayed row (inr p))
      ]
