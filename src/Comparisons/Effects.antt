-- ===== src/Comparisons/Effects.antt =====
-- What a request of the comparison handlers writes to the items.
use akar_ai.Prelude.{
  ℕ, String, ◌≤◌, true, false, nat_beq_iff, ◌≡◌, refl, ◌⊎◌, inl, inr, Option, none, some, List, [],
  ◌∷◌, arith, leb, Option-cases, nat_key,
}
use akar_ai.Exec.{ok, transaction, transaction-cases}
use akar_ai.Table.{Table, find, put, delete, count, IsKeyed}
use akar_ai.Rows
use akar_ai.Comparisons.Service.{
  ComparisonItem, ComparisonSession, Bench, is_item, max_comparison_items, get_item, get_item_count,
  open_session, own_session, create_comparison_session, update_comparison_session,
  delete_comparison_session, add_comparison_item, remove_comparison_item, ComparisonRequest,
  open_new, rename, discard, add_item, drop_item, handle_comparison,
}

-- The tables' keys, the unique index on session and listing, and the limit.
pub record IsBounded (items : Table ℕ ComparisonItem) : Type 0 where
  pub keyed : IsKeyed items
  pub unique : (session_id listing_id : ℕ) → count (is_item session_id listing_id) items ≤ 1
  pub within : (session_id : ℕ) → get_item_count session_id items ≤ max_comparison_items

abbrev pub IsFreshItem : Bench → ComparisonRequest → Type 0
IsFreshItem bench (add_item u new_id s l) = find new_id bench.comparison_items ≡ none
IsFreshItem bench _ = Unit

abbrev pub AreFreshItems : Bench → List ComparisonRequest → Type 0
AreFreshItems bench [] = Unit
AreFreshItems bench (r ∷ rs) = IsFreshItem bench r × AreFreshItems (handle_comparison r bench) rs

-- What a call of `add_comparison_item` has found and written when it placed a new item.
pub record Placed (bench : Bench) (u new_id s l : ℕ) (item : ComparisonItem)
    (items : Table ℕ ComparisonItem) : Type 0 where
  pub session : ComparisonSession
  pub found : find s bench.comparison_sessions ≡ some session
  pub owner : session.user_id ≡ u
  pub new_pair : count (is_item s l) bench.comparison_items ≡ 0
  pub room : leb max_comparison_items (get_item_count s bench.comparison_items) ≡ false
  pub made : item ≡ record {
    comparison_session_id = s;
    listing_id = l;
    position = get_item_count s bench.comparison_items;
  }
  pub written : items ≡ put new_id item bench.comparison_items

pub record Dropped (bench : Bench) (u s l : ℕ) (items : Table ℕ ComparisonItem) : Type 0 where
  pub id : ℕ
  pub item : ComparisonItem
  pub session : ComparisonSession
  pub found : find s bench.comparison_sessions ≡ some session
  pub owner : session.user_id ≡ u
  pub found_item : find id bench.comparison_items ≡ some item
  pub in_session : is_item s l item ≡ true
  pub written : items ≡ delete id bench.comparison_items

module _ (bench : Bench) (bounded : IsBounded bench.comparison_items) where
  pub add_comparison_item-Placed :
      (u new_id s l : ℕ) (item : ComparisonItem)
      → (add_comparison_item u new_id s l bench).0 ≡ ok item
      → let items = (add_comparison_item u new_id s l bench).1.comparison_items in
        ((items ≡ bench.comparison_items) × (count (is_item s l) bench.comparison_items ≡ 1))
        ⊎ Placed bench u new_id s l item items
  unfolding add_comparison_item open_session get_item
  add_comparison_item-Placed u new_id s l item done =
      elim (Option-cases (find s bench.comparison_sessions)) [
        | inl missing ↦ absurd (ground (arith, missing))
        | inr (session, e) ↦
            elim (Rows.lookup-cases (is_item s l) bench.comparison_items bounded.keyed
              (bounded.unique s l)) [
                | inr (only, here, one) ↦ inl (ground (arith, e, here), one)
                | inl (nothing, no_item) ↦ inr (record {
                  session = session;
                  found = e;
                  owner = ground (arith, e, nothing, nat_beq_iff session.user_id u);
                  new_pair = no_item;
                  room = ground (arith, e, nothing);
                  made = ground (arith, e, nothing, done);
                  written = ground (arith, e, nothing, done);
                })
              ]
      ]

  pub remove_comparison_item-Dropped :
      (u s l : ℕ) (done_with : Unit {0})
      → (remove_comparison_item u s l bench).0 ≡ ok done_with
      → let items = (remove_comparison_item u s l bench).1.comparison_items in
        (items ≡ bench.comparison_items) ⊎ Dropped bench u s l items
  unfolding remove_comparison_item own_session get_item
  remove_comparison_item-Dropped u s l done_with done =
      elim (Option-cases (find s bench.comparison_sessions)) [
        | inl missing ↦ absurd (ground (arith, missing))
        | inr (session, e) ↦
            elim (Rows.lookup-cases (is_item s l) bench.comparison_items bounded.keyed
              (bounded.unique s l)) [
                | inl (nothing, no_item) ↦ inl (ground (arith, e, nothing))
                | inr (only, here, one) ↦ inr (record {
                  id = only.id;
                  item = only.row;
                  session = session;
                  found = e;
                  owner = ground (arith, e, here, nat_beq_iff session.user_id u);
                  found_item = only.found;
                  in_session = only.has;
                  written = ground (arith, e, here);
                })
              ]
      ]

-- What a request leaves in the table of items.
pub data ItemsChange (bench : Bench) (r : ComparisonRequest) (items : Table ℕ ComparisonItem)
    : Type 0 where
  as_before : items ≡ bench.comparison_items → ItemsChange bench r items
  placed :
      (u new_id s l : ℕ) (item : ComparisonItem)
      → r ≡ add_item u new_id s l
      → Placed bench u new_id s l item items
      → ItemsChange bench r items
  dropped :
      (u s l : ℕ) → r ≡ drop_item u s l → Dropped bench u s l items → ItemsChange bench r items

new_session-items :
    (bench : Bench) (u new_id : ℕ) (name : String)
    → (handle_comparison (open_new u new_id name) bench).comparison_items ≡ bench.comparison_items
unfolding handle_comparison create_comparison_session transaction
new_session-items bench u new_id name = refl

rename-items :
    (bench : Bench) (u s : ℕ) (name : Option String)
    → (handle_comparison (rename u s name) bench).comparison_items ≡ bench.comparison_items
unfolding handle_comparison update_comparison_session open_session transaction
rename-items bench u s name = elim (Option-cases (find s bench.comparison_sessions)) [
  | inl missing ↦ ground (arith, missing)
  | inr (session, e) ↦ ground (arith, e)
]

discard-items :
    (bench : Bench) (u now s : ℕ)
    → (handle_comparison (discard u now s) bench).comparison_items ≡ bench.comparison_items
unfolding handle_comparison delete_comparison_session own_session transaction
discard-items bench u now s = elim (Option-cases (find s bench.comparison_sessions)) [
  | inl missing ↦ ground (arith, missing)
  | inr (session, e) ↦ ground (arith, e)
]

pub handle-ItemsChange :
    (bench : Bench) (r : ComparisonRequest)
    → IsBounded bench.comparison_items
    → ItemsChange bench r (handle_comparison r bench).comparison_items
unfolding handle_comparison
handle-ItemsChange bench (open_new u new_id name) bounded =
    as_before (new_session-items bench u new_id name)
handle-ItemsChange bench (rename u s name) bounded = as_before (rename-items bench u s name)
handle-ItemsChange bench (discard u now s) bounded = as_before (discard-items bench u now s)
handle-ItemsChange bench (add_item u new_id s l) bounded =
    elim (transaction-cases (add_comparison_item u new_id s l) bench) [
      | inl rolled_back ↦ as_before (rw rolled_back refl)
      | inr (item, done, wrote) ↦
          elim (add_comparison_item-Placed bench bounded u new_id s l item done) [
            | inl (same, _) ↦ as_before (rw wrote same)
            | inr p ↦ placed u new_id s l item refl (rw wrote p)
          ]
    ]
handle-ItemsChange bench (drop_item u s l) bounded =
    elim (transaction-cases (remove_comparison_item u s l) bench) [
      | inl rolled_back ↦ as_before (rw rolled_back refl)
      | inr (item, done, wrote) ↦
          elim (remove_comparison_item-Dropped bench bounded u s l item done) [
            | inl same ↦ as_before (rw wrote same)
            | inr d ↦ dropped u s l refl (rw wrote d)
          ]
    ]
