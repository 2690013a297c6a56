-- ===== src/Leads/Soundness.antt =====
-- What the lead requests keep of every lead: its two result rows, its processing status, its
-- closing time.
use akar_ai.Prelude.{
  ℕ, String, ◌≡◌, ◌≢◌, ◌↔◌, refl, Option, none, some, List, arith, nat_key, Bool-cases, inl, inr,
  str_eq, str_eq_iff,
}
use akar_ai.Table.{find, put, find-put_self}
use akar_ai.Database.{Db, Lead}
use akar_ai.Tenant.{TenantContext}
use akar_ai.Domain.Laws.{lead_allows_iff}
use akar_ai.Leads.Inquiries.{pending_result}
use akar_ai.Leads.Callbacks.{StageUpdate, update_of}
use akar_ai.Leads.Requests.{LeadRequest, serve_leads, AreFreshLeads}
use akar_ai.Leads.Effects.{LeadsWrote, Inquired, Moved, Reviewed}
use akar_ai.Leads.Classified.{Classified, replayed, spam_stored, level_stored}
use akar_ai.Leads.Change.{
  LeadChange, failed, inquired, moved, reviewed, classified, serve_leads_induction,
}
use akar_ai.Leads.SoundLead.{
  LeadsAreSound, after_spam-IsProcessing, after_level-IsProcessing, put-Sound, find-put_other,
  upsert_result-tenant,
}

module _ (db db' : Db) (h : LeadsAreSound db) where
  Inquired-Sound :
      {lead_id listing_id user_id : ℕ} {message : Option String}
      → Inquired lead_id listing_id user_id message db db'
      → LeadsAreSound db'
  Inquired-Sound {lead_id} c =
      put-Sound db db' lead_id _ c.wrote.leads_are
        (λ id other. rw c.wrote.spam_is (find-put_other lead_id id _ _ other))
        (λ id other. rw c.wrote.level_is (find-put_other lead_id id _ _ other))
        (record {
          spam = (
            pending_result c.listing.agency_tenant_id,
            rw (c.wrote.spam_is, find-put_self),
            refl,
          );
          level = (
            pending_result c.listing.agency_tenant_id,
            rw (c.wrote.level_is, find-put_self),
            refl,
          );
          processing = inl refl;
          closing = (
            (λ closed. absurd (ground (arith, str_eq_iff "new" "closed"))),
            λ some_time. absurd (some_time refl),
          );
        })
        h

  -- A write of a lead that keeps its tenant, its processing status and the result tables.
  keeps-Sound :
      (lead_id : ℕ) (l : Lead) (status : String) (closed_at : Option ℕ)
      → find lead_id db.leads ≡ some l
      → LeadsWrote db'
          (put lead_id (record l { status = status; closed_at = closed_at }) db.leads)
          db.spam_results
          db.level_results
      → (status ≡ "closed") ↔ (closed_at ≢ none)
      → LeadsAreSound db'
  keeps-Sound lead_id l status closed_at at wrote closing =
      let old = h lead_id l at in
      put-Sound db db' lead_id _ wrote.leads_are (λ id other. rw wrote.spam_is)
        (λ id other. rw wrote.level_is)
        (record {
          spam = (old.spam.0, rw wrote.spam_is old.spam.1, old.spam.2);
          level = (old.level.0, rw wrote.level_is old.level.1, old.level.2);
          processing = old.processing;
          closing = closing;
        })
        h

  Moved-Sound :
      {tenant : Option TenantContext} {now lead_id : ℕ} {new_status : String}
      → Moved tenant now lead_id new_status db db'
      → LeadsAreSound db'
  Moved-Sound {now = now} {lead_id = lead_id} {new_status = new_status} c =
      keeps-Sound lead_id c.lead new_status _ c.found c.wrote (
        let legal = (lead_allows_iff c.lead.status new_status).0 c.allowed in
        let old = (h lead_id c.lead c.found).closing in
        (
          λ closed. ground (arith, closed, str_eq_iff new_status "closed"),
          λ some_time. ground (
            arith,
            legal,
            old,
            some_time,
            str_eq_iff new_status "closed",
            str_eq_iff c.lead.status "closed",
            str_eq_iff "new" "closed",
            str_eq_iff "reviewed" "closed",
          ),
        ))

  Reviewed-Sound :
      {tenant : Option TenantContext} {lead_id reviewed_by : ℕ} {outcome notes : Option String}
      → Reviewed tenant lead_id reviewed_by outcome notes db db'
      → LeadsAreSound db'
  Reviewed-Sound {lead_id = lead_id} c = elim (Bool-cases (str_eq c.lead.status "new")) [
    | inl new ↦
        keeps-Sound lead_id c.lead "reviewed" c.lead.closed_at c.found
          (record {
            leads_are = rw (c.wrote.leads_are, new);
            spam_is = c.wrote.spam_is;
            level_is = c.wrote.level_is;
          })
          (let old = (h lead_id c.lead c.found).closing in
            (
              λ closed. absurd (ground (arith, closed, str_eq_iff "reviewed" "closed")),
              λ some_time. absurd (
                  ground (
                    arith,
                    new,
                    old.1 some_time,
                    str_eq_iff c.lead.status "new",
                    str_eq_iff "new" "closed",
                  )),
            ))
    | inr other ↦ λ id l found.
        let old = h id l (rw (c.wrote.leads_are, other) at found) in
        record {
          spam = (old.spam.0, rw c.wrote.spam_is old.spam.1, old.spam.2);
          level = (old.level.0, rw c.wrote.level_is old.level.1, old.level.2);
          processing = old.processing;
          closing = old.closing;
        }
  ]

Classified-Sound :
    (db db' : Db) (h : LeadsAreSound db) (lead_id tenant_id : ℕ) (u : StageUpdate)
    → Classified lead_id tenant_id u db db'
    → LeadsAreSound db'
Classified-Sound db _ h _ _ _ (replayed row key) = h
Classified-Sound db db' h lead_id tenant_id u (spam_stored lead at own wrote) =
    let old = h lead_id lead at in
    put-Sound db db' lead_id _ wrote.0.leads_are
      (λ id other. rw wrote.0.spam_is (find-put_other lead_id id _ _ other))
      (λ id other. rw wrote.0.level_is)
      (record {
        spam =
            rw (wrote.0.spam_is, own)
              (upsert_result-tenant db.spam_results lead_id tenant_id u (rw own at old.spam));
        level = (old.level.0, rw wrote.0.level_is old.level.1, old.level.2);
        processing = after_spam-IsProcessing u lead.processing_status old.processing;
        closing = old.closing;
      })
      h
Classified-Sound db db' h lead_id tenant_id u (level_stored lead at own wrote) =
    let old = h lead_id lead at in
    put-Sound db db' lead_id _ wrote.0.leads_are (λ id other. rw wrote.0.spam_is)
      (λ id other. rw wrote.0.level_is (find-put_other lead_id id _ _ other))
      (record {
        spam = (old.spam.0, rw wrote.0.spam_is old.spam.1, old.spam.2);
        level =
            rw (wrote.0.level_is, own)
              (upsert_result-tenant db.level_results lead_id tenant_id u (rw own at old.level));
        processing = after_level-IsProcessing u lead.processing_status old.processing;
        closing = old.closing;
      })
      h

LeadChange-Sound :
    (db db' : Db) (r : LeadRequest) → LeadsAreSound db → LeadChange db r db' → LeadsAreSound db'
LeadChange-Sound db _ _ h (failed r refused) = h
LeadChange-Sound db db' _ h (inquired fresh c) = Inquired-Sound db db' h c
LeadChange-Sound db db' _ h (moved c) = Moved-Sound db db' h c
LeadChange-Sound db db' _ h (reviewed c) = Reviewed-Sound db db' h c
LeadChange-Sound db db' _ h (classified {body = body} admitted c) =
    Classified-Sound db db' h body.lead_id body.tenant_id (update_of body) c

-- Whatever requests are served from a database where this holds, with fresh ids for new leads:
-- every lead has a spam row and a level row of its own tenant, its processing status is one of
-- the four that the pipeline knows, and it has a closing time exactly when it is closed.
pub serve_leads-LeadsAreSound :
    (db : Db) (rs : List LeadRequest)
    → LeadsAreSound db
    → AreFreshLeads db rs
    → LeadsAreSound (serve_leads db rs)
serve_leads-LeadsAreSound = serve_leads_induction LeadChange-Sound
