-- ===== src/Comparisons/Owners.antt =====
-- Users do not write one another's comparison sessions.
use akar_ai.Prelude.{
  ℕ, ◌≡◌, ◌≢◌, refl, ap, subst, ◌⊎◌, inl, inr, Option, none, some, String, arith, nat_beq_iff,
  nat_key, Option-cases, Bool-cases, ◌==◌,
}
use akar_ai.Exec.{ok, transaction, transaction-cases}
use akar_ai.Table.{Table, find, put, find-put, find-delete}
use akar_ai.Comparisons.Service.{
  ComparisonItem, ComparisonSession, Bench, ComparisonRequest, open_new, rename, discard, add_item,
  drop_item, handle_comparison, create_comparison_session, update_comparison_session,
  delete_comparison_session, add_comparison_item, remove_comparison_item, open_session, own_session,
}
use akar_ai.Comparisons.Effects.{
  IsBounded, IsFreshItem, ItemsChange, as_before, placed, dropped, handle-ItemsChange,
}

abbrev pub requester : ComparisonRequest → ℕ
requester (open_new u new_id name) = u
requester (rename u s name) = u
requester (discard u now s) = u
requester (add_item u new_id s l) = u
requester (drop_item u s l) = u

-- New rows have keys of their own.
abbrev pub IsFreshSession : Bench → ComparisonRequest → Type 0
IsFreshSession bench (open_new u new_id name) = find new_id bench.comparison_sessions ≡ none
IsFreshSession bench _ = Unit

foreign_items :
    (bench : Bench) (r : ComparisonRequest) (items : Table ℕ ComparisonItem) (s id : ℕ)
    (session : ComparisonSession) (item : ComparisonItem)
    → IsFreshItem bench r
    → find s bench.comparison_sessions ≡ some session
    → session.user_id ≢ requester r
    → find id bench.comparison_items ≡ some item
    → item.comparison_session_id ≡ s
    → ItemsChange bench r items
    → find id items ≡ some item
foreign_items bench r items s id session item fresh found other here within (as_before same) =
    rw same here
foreign_items bench r items s id session item fresh found other here within
      (placed u new_id s2 l new is_add p) =
    let free = subst (λ q. IsFreshItem bench q) is_add fresh in
    rw (p.written, find-put) (ground (arith, free, here, nat_beq_iff new_id id))
foreign_items bench r items s id session item fresh found other here within
      (dropped u s2 l is_drop d) =
    rw (d.written, find-delete)
      (ground (
        arith,
        here,
        found,
        other,
        within,
        ap requester is_drop,
        d.found_item,
        d.in_session,
        d.found,
        d.owner,
        nat_beq_iff d.id id,
        nat_beq_iff d.item.comparison_session_id s2,
      ))

-- A session row that a request writes is new or the requester's.
record SessionWritten (bench : Bench) (r : ComparisonRequest) (sessions : Table ℕ ComparisonSession)
    : Type 0 where
  key : ℕ
  new : ComparisonSession
  written : sessions ≡ put key new bench.comparison_sessions
  mine :
      (old : ComparisonSession)
      → find key bench.comparison_sessions ≡ some old
      → old.user_id ≡ requester r

module _ (bench : Bench) where
  rename-SessionWritten :
      (u s : ℕ) (name : Option String) (new : ComparisonSession)
      → (update_comparison_session u s name bench).0 ≡ ok new
      → SessionWritten bench
          (rename u s name)
          (update_comparison_session u s name bench).1.comparison_sessions
  unfolding update_comparison_session open_session
  rename-SessionWritten u s name new done = elim (Option-cases (find s bench.comparison_sessions)) [
    | inl missing ↦ absurd (ground (arith, missing))
    | inr (old, e) ↦ record {
      key = s;
      new = new;
      written = ground (arith, e, done);
      mine = λ row found. ground (arith, e, found, nat_beq_iff row.user_id u);
    }
  ]

  discard-SessionWritten :
      (u now s : ℕ) (done_with : Unit {0})
      → (delete_comparison_session u now s bench).0 ≡ ok done_with
      → SessionWritten bench
          (discard u now s)
          (delete_comparison_session u now s bench).1.comparison_sessions
  unfolding delete_comparison_session own_session
  discard-SessionWritten u now s done_with done =
      elim (Option-cases (find s bench.comparison_sessions)) [
        | inl missing ↦ absurd (ground (arith, missing))
        | inr (old, e) ↦ record {
          key = s;
          new = record old { deleted_at = some now };
          written = ground (arith, e);
          mine = λ row found. ground (arith, e, found, nat_beq_iff row.user_id u);
        }
      ]

  add_item-sessions :
      (u new_id s l : ℕ)
      → (handle_comparison (add_item u new_id s l) bench).comparison_sessions
        ≡ bench.comparison_sessions
  unfolding handle_comparison add_comparison_item open_session transaction
  add_item-sessions u new_id s l = elim (Option-cases (find s bench.comparison_sessions)) [
    | inl missing ↦ ground (arith, missing)
    | inr (old, e) ↦ ground (arith, e)
  ]

  drop_item-sessions :
      (u s l : ℕ)
      → (handle_comparison (drop_item u s l) bench).comparison_sessions ≡ bench.comparison_sessions
  unfolding handle_comparison remove_comparison_item own_session transaction
  drop_item-sessions u s l = elim (Option-cases (find s bench.comparison_sessions)) [
    | inl missing ↦ ground (arith, missing)
    | inr (old, e) ↦ ground (arith, e)
  ]

new_row :
    (bench : Bench) (u new_id : ℕ) (name : String)
    → find new_id bench.comparison_sessions ≡ none
    → SessionWritten bench
        (open_new u new_id name)
        (handle_comparison (open_new u new_id name) bench).comparison_sessions
unfolding handle_comparison create_comparison_session transaction
new_row bench u new_id name fresh = record {
  key = new_id;
  new = record { user_id = u; name = name; deleted_at = none };
  written = refl;
  mine = λ old found. absurd (ground (arith, fresh, found));
}

session_write :
    (bench : Bench) (r : ComparisonRequest)
    → IsFreshSession bench r
    → let sessions = (handle_comparison r bench).comparison_sessions in
      (sessions ≡ bench.comparison_sessions) ⊎ SessionWritten bench r sessions
unfolding handle_comparison
session_write bench (open_new u new_id name) fresh = inr (new_row bench u new_id name fresh)
session_write bench (rename u s name) fresh =
    elim (transaction-cases (update_comparison_session u s name) bench) [
      | inl rolled_back ↦ inl (rw rolled_back refl)
      | inr (new, done, wrote) ↦ inr (rw wrote (rename-SessionWritten bench u s name new done))
    ]
session_write bench (discard u now s) fresh =
    elim (transaction-cases (delete_comparison_session u now s) bench) [
      | inl rolled_back ↦ inl (rw rolled_back refl)
      | inr (d, done, wrote) ↦ inr (rw wrote (discard-SessionWritten bench u now s d done))
    ]
session_write bench (add_item u new_id s l) fresh = inl (add_item-sessions bench u new_id s l)
session_write bench (drop_item u s l) fresh = inl (drop_item-sessions bench u s l)

-- A request leaves the comparison sessions of other users, and the items in them, as they were.
pub foreign_session_stays :
    (bench : Bench) (r : ComparisonRequest) (s : ℕ) (session : ComparisonSession)
    → IsBounded bench.comparison_items
    → IsFreshItem bench r
    → IsFreshSession bench r
    → find s bench.comparison_sessions ≡ some session
    → session.user_id ≢ requester r
    → (find s (handle_comparison r bench).comparison_sessions ≡ some session)
      × ((id : ℕ) (item : ComparisonItem)
          → find id bench.comparison_items ≡ some item
          → item.comparison_session_id ≡ s
          → find id (handle_comparison r bench).comparison_items ≡ some item)
foreign_session_stays bench r s session bounded fresh fresh_session found other = (
  elim (session_write bench r fresh_session) [
    | inl same ↦ rw same found
    | inr w ↦
        rw (w.written, find-put)
          (elim (Bool-cases (w.key == s)) [
            | inl hit ↦
                absurd (other (w.mine session (ground (arith, hit, found, nat_beq_iff w.key s))))
            | inr miss ↦ ground (arith, miss, found)
          ])
  ],
  λ id item here within.
      foreign_items bench r _ s id session item fresh found other here within
        (handle-ItemsChange bench r bounded),
)
