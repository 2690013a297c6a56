-- ===== src/Leads/Progress.antt =====
-- A lead over its lifetime: it is never lost or rewritten, and its status moves forward only.
use akar_ai.Prelude.{
  ℕ, String, ◌≤◌, ◌==◌, nat_beq_iff, ◌≡◌, ◌⊎◌, subst, refl, some, List, arith, nat_key, Bool-cases,
  inl, inr, str_eq, str_eq_iff, if◌then◌else◌,
}
use akar_ai.Table.{find, put, find-put}
use akar_ai.Database.{Db, Lead}
use akar_ai.Domain.Laws.{lead_allows_iff}
use akar_ai.Leads.Reviews.{with_status}
use akar_ai.Leads.Callbacks.{after_spam, after_level, update_of}
use akar_ai.Leads.Requests.{LeadRequest, serve_leads, AreFreshLeads}
use akar_ai.Leads.Classified.{Classified, replayed, spam_stored, level_stored}
use akar_ai.Leads.Change.{
  LeadChange, failed, inquired, moved, reviewed, classified, serve_leads_induction,
}

-- How far a status is: a lead starts as new, and closed is final.
unfoldable pub progress : String → ℕ
progress status = if str_eq status "new" then 0 else if str_eq status "reviewed" then 1 else 2

pub record Follows (old new : Lead) : Type 0 where
  pub same_tenant : new.agency_tenant_id ≡ old.agency_tenant_id
  pub same_listing : new.listing_id ≡ old.listing_id
  pub same_user : new.user_id ≡ old.user_id
  pub same_message : new.message ≡ old.message
  pub forward : progress old.status ≤ progress new.status
  pub final : old.status ≡ "closed" → (new.status ≡ "closed") × (new.closed_at ≡ old.closed_at)

Follows-refl : (l : Lead) → Follows l l
Follows-refl l = record {
  same_tenant = refl;
  same_listing = refl;
  same_user = refl;
  same_message = refl;
  forward = omega arith;
  final = λ closed. (closed, refl);
}

Follows-trans : {a b c : Lead} → Follows a b → Follows b c → Follows a c
Follows-trans f g = record {
  same_tenant = cc;
  same_listing = cc;
  same_user = cc;
  same_message = cc;
  forward = omega (arith, f.forward, g.forward);
  final = λ closed.
      let (still, at) = f.final closed in let (still', at') = g.final still in (still', cc);
}

-- An update of a status by the transition table, and what it leaves alone.
with_status-Follows :
    (now : ℕ) (new_status : String) (l : Lead)
    → (((l.status ≡ "new") × (new_status ≡ "reviewed"))
        ⊎ ((l.status ≡ "new") × (new_status ≡ "closed"))
        ⊎ ((l.status ≡ "reviewed") × (new_status ≡ "closed")))
    → Follows l (with_status now new_status l)
unfolding progress
with_status-Follows now new_status l legal = record {
  same_tenant = refl;
  same_listing = refl;
  same_user = refl;
  same_message = refl;
  forward = ground (
    arith,
    legal,
    str_eq_iff new_status "new",
    str_eq_iff new_status "reviewed",
    str_eq_iff l.status "new",
    str_eq_iff l.status "reviewed",
    str_eq_iff "reviewed" "new",
    str_eq_iff "closed" "new",
    str_eq_iff "closed" "reviewed",
  );
  final = λ closed.
      absurd (ground (arith, legal, str_eq_iff "new" "closed", str_eq_iff "reviewed" "closed"));
}

reviewed-Follows : (l : Lead) → l.status ≡ "new" → Follows l (record l { status = "reviewed" })
unfolding progress
reviewed-Follows l new = record {
  same_tenant = refl;
  same_listing = refl;
  same_user = refl;
  same_message = refl;
  forward = ground (arith, new, str_eq_iff l.status "new");
  final = λ closed. absurd (ground (arith, new, str_eq_iff "new" "closed"));
}

processed-Follows : (l : Lead) (s : String) → Follows l (record l { processing_status = s })
processed-Follows l s = record {
  same_tenant = refl;
  same_listing = refl;
  same_user = refl;
  same_message = refl;
  forward = omega arith;
  final = λ closed. (closed, refl);
}

-- The lead that a database has under an id follows `old`.
abbrev pub StillThere : ℕ → Lead → Db → Type 0
StillThere id old db = (new : Lead) × (find id db.leads ≡ some new) × Follows old new

module _ (id : ℕ) where
  -- Replacing the row of a lead by one that follows it.
  put-StillThere :
      (j : ℕ) (l new : Lead) (db db' : Db)
      → find j db.leads ≡ some l
      → Follows l new
      → db'.leads ≡ put j new db.leads
      → (old : Lead) → find id db.leads ≡ some old
      → StillThere id old db'
  put-StillThere j l new db db' at follows written old found = elim (Bool-cases (j == id)) [
    | inl same ↦ (
      new,
      rw (written, find-put) (ground (arith, same)),
      subst (λ x. Follows x new) (ground (arith, at, found, nat_beq_iff j id)) follows,
    )
    | inr other ↦ (old, rw (written, find-put) (ground (arith, other)), Follows-refl old)
  ]

  LeadChange-StillThere :
      (db db' : Db) (r : LeadRequest)
      → LeadChange db r db'
      → (old : Lead) → find id db.leads ≡ some old
      → StillThere id old db'
  LeadChange-StillThere db _ _ (failed r refused) old found = (old, found, Follows-refl old)
  LeadChange-StillThere db _ _ (inquired {lead_id} fresh c) old found = (
    old,
    rw (c.wrote.leads_are, find-put) (ground (arith, nat_beq_iff lead_id id)),
    Follows-refl old,
  )
  LeadChange-StillThere db db' _ (moved {now = now} {lead_id = lead_id} {new_status = new_status} c)
        old found =
      put-StillThere lead_id c.lead (with_status now new_status c.lead) db db' c.found
        (with_status-Follows now new_status c.lead
          ((lead_allows_iff c.lead.status new_status).0 c.allowed))
        c.wrote.leads_are old found
  LeadChange-StillThere db db' _ (reviewed {lead_id = lead_id} c) old found =
      elim (Bool-cases (str_eq c.lead.status "new")) [
        | inl new ↦
            put-StillThere lead_id c.lead (record c.lead { status = "reviewed" }) db db' c.found
              (reviewed-Follows c.lead ((str_eq_iff c.lead.status "new").0 new))
              (rw (c.wrote.leads_are, new)) old found
        | inr other ↦ (old, rw (c.wrote.leads_are, other) found, Follows-refl old)
      ]
  LeadChange-StillThere db db' _ (classified {body = body} admitted c) old found =
      by_stage c old found
    where
      by_stage :
          {db' : Db}
          → Classified body.lead_id body.tenant_id (update_of body) db db'
          → (old : Lead) → find id db.leads ≡ some old
          → StillThere id old db'
      by_stage (replayed row key) old found = (old, found, Follows-refl old)
      by_stage {db'} (spam_stored lead at own wrote) old found =
          put-StillThere body.lead_id lead
            (record lead { processing_status = after_spam (update_of body) lead.processing_status })
            db db' at (processed-Follows lead _) wrote.0.leads_are old found
      by_stage {db'} (level_stored lead at own wrote) old found =
          put-StillThere body.lead_id lead
            (record lead {
              processing_status = after_level (update_of body) lead.processing_status;
            })
            db db' at (processed-Follows lead _) wrote.0.leads_are old found

-- Whatever requests are served, with fresh ids for new leads: a lead stays in the database with
-- its tenant, listing, user and message; its status only moves forward from new over reviewed to
-- closed; and once closed it stays closed with its closing time.
pub serve_leads-StillThere :
    (id : ℕ) (old : Lead) (db : Db) (rs : List LeadRequest)
    → find id db.leads ≡ some old
    → AreFreshLeads db rs
    → StillThere id old (serve_leads db rs)
serve_leads-StillThere id old db rs found =
    serve_leads_induction {P = StillThere id old}
      (λ db db' r (l, at, follows) change.
        let (l', at', follows') = LeadChange-StillThere id db db' r change l at in
        (l', at', Follows-trans follows follows'))
      db rs (old, found, Follows-refl old)
