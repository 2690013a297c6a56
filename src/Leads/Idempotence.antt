-- ===== src/Leads/Idempotence.antt =====
-- A classification callback that is delivered again: the keys of leads/router.py and the early
-- return of leads/service.py.
use akar_ai.Prelude.{
  ℕ, String, ◌≡◌, refl, Option, none, some, arith, nat_key, ◌≢◌, Option-cases, Bool-cases, sym, ap,
  inl, inr, str_eq, str_eq_iff,
}
use akar_ai.Exec.{Result, ok, err, lift, ◌>>◌}
use text.Mathlib.TextLemmas.{append-eq-nil_iff}
use akar_ai.Table.{find, find-put_self}
use akar_ai.Database.{Db, StageResult}
use akar_ai.Leads.Callbacks.{
  StageUpdate, CallbackBody, callback_key, update_of, with_key, upsert_result, after_spam,
  after_level, process_spam_callback, process_level_callback, admit_callback, dispatch_callback,
  classification_callback,
}
use akar_ai.Leads.Classified.{
  spam_found, spam_replays, spam_stores, level_found, level_replays, level_stores,
}

-- The row that a keyed update leaves carries its key.
upsert_result-with_key :
    (tenant_id : ℕ) (u : StageUpdate) (old : Option StageResult) (key : String)
    → u.idempotency_key ≡ some key
    → key ≢ ""
    → with_key u.idempotency_key (some (upsert_result tenant_id u old))
      ≡ some (upsert_result tenant_id u old)
unfolding upsert_result
upsert_result-with_key tenant_id u none key keyed nonempty =
    ground (arith, keyed, nonempty, str_eq_iff key "", str_eq_iff key key)
upsert_result-with_key tenant_id u (some old) key keyed nonempty =
    ground (arith, keyed, nonempty, str_eq_iff key "", str_eq_iff key key)

module _ (lead_id tenant_id : ℕ) (u : StageUpdate) (db : Db) (key : String)
    (keyed : u.idempotency_key ≡ some key) (nonempty : key ≢ "") where
  pub process_spam_callback_twice :
      (r : StageResult)
      → (process_spam_callback lead_id tenant_id u db).0 ≡ ok r
      → process_spam_callback lead_id tenant_id u (process_spam_callback lead_id tenant_id u db).1
        ≡ (ok r, (process_spam_callback lead_id tenant_id u db).1)
  process_spam_callback_twice r h =
      let (lead, e, own) = spam_found lead_id tenant_id u db r h in
      elim (Option-cases (with_key u.idempotency_key (find lead_id db.spam_results))) [
        | inl fresh ↦
            let (result, wrote) = spam_stores lead_id tenant_id u db lead e own fresh in
            let again =
              spam_replays lead_id tenant_id u (process_spam_callback lead_id tenant_id u db).1
                (record lead { processing_status = after_spam u lead.processing_status })
                (rw (wrote.0.leads_are, find-put_self)) own
                (upsert_result tenant_id u (find lead_id db.spam_results))
                (rw (wrote.0.spam_is, find-put_self)
                  (upsert_result-with_key tenant_id u _ key keyed nonempty)) in
            cc
        | inr (row, p) ↦ let same = spam_replays lead_id tenant_id u db lead e own row p in cc
      ]

  pub process_level_callback_twice :
      (r : StageResult)
      → (process_level_callback lead_id tenant_id u db).0 ≡ ok r
      → process_level_callback lead_id tenant_id u (process_level_callback lead_id tenant_id u db).1
        ≡ (ok r, (process_level_callback lead_id tenant_id u db).1)
  process_level_callback_twice r h =
      let (lead, e, own) = level_found lead_id tenant_id u db r h in
      elim (Option-cases (with_key u.idempotency_key (find lead_id db.level_results))) [
        | inl fresh ↦
            let (result, wrote) = level_stores lead_id tenant_id u db lead e own fresh in
            let again =
              level_replays lead_id tenant_id u (process_level_callback lead_id tenant_id u db).1
                (record lead { processing_status = after_level u lead.processing_status })
                (rw (wrote.0.leads_are, find-put_self)) own
                (upsert_result tenant_id u (find lead_id db.level_results))
                (rw (wrote.0.level_is, find-put_self)
                  (upsert_result-with_key tenant_id u _ key keyed nonempty)) in
            cc
        | inr (row, p) ↦ let same = level_replays lead_id tenant_id u db lead e own row p in cc
      ]

-- The key of a body is not empty: it starts with "callback_".
callback_key-nonempty : (body : CallbackBody) → callback_key body ≢ ""
callback_key-nonempty body =
    λ e. ground (arith, (append-eq-nil_iff {p = "callback_"}).0 e, str_eq_iff "callback_" "")

module _ (body : CallbackBody) where
  dispatch_twice :
      (db : Db) (r : StageResult)
      → (dispatch_callback body db).0 ≡ ok r
      → dispatch_callback body (dispatch_callback body db).1 ≡ (ok r, (dispatch_callback body db).1)
  dispatch_twice db r h = elim (Bool-cases (str_eq body.stage "spam")) [
    | inl spam ↦ rw spam (
        process_spam_callback_twice body.lead_id body.tenant_id (update_of body) db
          (callback_key body) refl (callback_key-nonempty body) r (ground (arith, spam)))
    | inr level ↦ rw level (
        process_level_callback_twice body.lead_id body.tenant_id (update_of body) db
          (callback_key body) refl (callback_key-nonempty body) r (ground (arith, level)))
  ]

module _ (token authorization : String) (body : CallbackBody) where
  -- The guards of the endpoint do not read the database.
  pub callback_admits :
      (db : Db) (r : StageResult)
      → (classification_callback token authorization body db).0 ≡ ok r
      → admit_callback token authorization body ≡ ok tt
  unfolding classification_callback
  callback_admits db r h = guarded (admit_callback token authorization body) h
    where
      guarded :
          (admitted : Result (Unit {0}))
          → ((lift admitted >> dispatch_callback body) db).0 ≡ ok r
          → admitted ≡ ok tt
      guarded (ok _) h = refl
      guarded (err e) h = absurd (ground arith)

  pub callback_dispatches :
      admit_callback token authorization body ≡ ok tt
      → (db : Db) → classification_callback token authorization body db ≡ dispatch_callback body db
  unfolding classification_callback
  callback_dispatches admitted db = rw admitted

  -- A callback that the model service sends twice with the same body is answered twice with the
  -- same result, and the second delivery leaves the database as the first left it.
  pub classification_callback_twice :
      (db : Db) (r : StageResult)
      → (classification_callback token authorization body db).0 ≡ ok r
      → classification_callback token authorization body
          (classification_callback token authorization body db).1
        ≡ (ok r, (classification_callback token authorization body db).1)
  classification_callback_twice db r h =
      let runs = callback_dispatches (callback_admits db r h) in
      rw (runs db, runs (dispatch_callback body db).1)
        (dispatch_twice body db r (rw (sym (ap (λ x. x.0) (runs db))) h))
