-- ===== src/Leads/SoundLead.antt =====
-- The invariant of the leads and what a write of one lead needs to keep it.
use akar_ai.Prelude.{
  ℕ, String, ◌==◌, nat_beq_iff, ◌≡◌, ◌≢◌, ◌⊎◌, ◌↔◌, subst, false, none, some, arith, nat_key,
  Bool-cases, inl, inr,
}
use akar_ai.Table.{Table, find, put, find-put, find-put_self}
use akar_ai.Database.{Db, Lead, StageResult}
use akar_ai.Leads.Callbacks.{StageUpdate, after_spam, after_level, upsert_result}

abbrev pub IsProcessing : String → Type 0
IsProcessing s = (s ≡ "pending_spam") ⊎ (s ≡ "pending_level") ⊎ (s ≡ "completed") ⊎ (s ≡ "failed")

pub after_spam-IsProcessing :
    (u : StageUpdate) (s : String) → IsProcessing s → IsProcessing (after_spam u s)
unfolding after_spam
after_spam-IsProcessing u s h = ground arith

pub after_level-IsProcessing :
    (u : StageUpdate) (s : String) → IsProcessing s → IsProcessing (after_level u s)
unfolding after_level
after_level-IsProcessing u s h = ground arith

-- A result row of the lead's tenant.
abbrev pub HasResult : Table ℕ StageResult → ℕ → ℕ → Type 0
HasResult results id tenant_id =
    (row : StageResult) × (find id results ≡ some row) × (row.agency_tenant_id ≡ tenant_id)

pub record SoundLead (db : Db) (id : ℕ) (l : Lead) : Type 0 where
  pub spam : HasResult db.spam_results id l.agency_tenant_id
  pub level : HasResult db.level_results id l.agency_tenant_id
  pub processing : IsProcessing l.processing_status
  pub closing : (l.status ≡ "closed") ↔ (l.closed_at ≢ none)

abbrev pub LeadsAreSound : Db → Type 0
LeadsAreSound db = (id : ℕ) (l : Lead) → find id db.leads ≡ some l → SoundLead db id l

-- A write of one lead, with its result rows.
module _ (db db' : Db) (j : ℕ) (new : Lead) (written : db'.leads ≡ put j new db.leads)
    (spam_elsewhere : (id : ℕ)
      → (j == id) ≡ false
      → find id db'.spam_results ≡ find id db.spam_results)
    (level_elsewhere : (id : ℕ)
      → (j == id) ≡ false
      → find id db'.level_results ≡ find id db.level_results) where
  pub put-Sound : SoundLead db' j new → LeadsAreSound db → LeadsAreSound db'
  put-Sound sound h id l found = elim (Bool-cases (j == id)) [
    | inl same ↦
        subst (λ k. SoundLead db' k l) ((nat_beq_iff j id).0 same)
          (subst (λ x. SoundLead db' j x)
            (ground (arith, written, found, same, find-put j id new db.leads)) sound)
    | inr other ↦
        let old = h id l (ground (arith, written, found, other, find-put j id new db.leads)) in
        record {
          spam = (old.spam.0, rw (spam_elsewhere id other) old.spam.1, old.spam.2);
          level = (old.level.0, rw (level_elsewhere id other) old.level.1, old.level.2);
          processing = old.processing;
          closing = old.closing;
        }
  ]

pub find-put_other :
    {V : Type 0} (j id : ℕ) (v : V) (t : Table ℕ V)
    → (j == id) ≡ false
    → find id (put j v t) ≡ find id t
find-put_other j id v t other = rw find-put (ground (arith, other))

-- The result row of the written lead.
pub upsert_result-tenant :
    (results : Table ℕ StageResult) (id t : ℕ) (u : StageUpdate)
    → HasResult results id t
    → HasResult (put id (upsert_result t u (find id results)) results) id t
unfolding upsert_result
upsert_result-tenant results id t u (row, found, own) =
    (upsert_result t u (find id results), find-put_self id _ results, rw found own)
