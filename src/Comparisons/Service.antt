-- ===== src/Comparisons/Service.antt =====
-- The writing handlers of `comparison_router` with the repository methods that they call. The items
-- have the unique index on session and listing and the foreign key to listings that
-- backend/alembic/versions/0004_core_domain_crud.py creates; the sessions' foreign key holds, since a
-- session's row is never deleted.
use akar_ai.Prelude.{
  ℕ, Bool, true, false, not, ◌&&◌, ◌==◌, String, Option, none, some, List, [], ◌∷◌, leb, or_else,
  nat_key,
}
use akar_ai.Exec.{
  Result, Exec, not_found, forbidden, conflict, integrity, pure, lift, gets, modify, or_raise,
  raise_if, ◌>>=◌, ◌>>◌, transaction,
}
use akar_ai.Table.{Table, find, put, delete, select, count}
use akar_ai.Rows.{one_or_none}
use akar_ai.Database.{Listing}

-- listings/models.py
pub record ComparisonSession : Type 0 where
  pub user_id : ℕ
  pub name : String
  pub deleted_at : Option ℕ

pub record ComparisonItem : Type 0 where
  pub comparison_session_id : ℕ
  pub listing_id : ℕ
  pub position : ℕ

-- The tables that the handlers use.
pub record Bench : Type 0 where
  pub listings : Table ℕ Listing
  pub comparison_sessions : Table ℕ ComparisonSession
  pub comparison_items : Table ℕ ComparisonItem

-- common/domain.py
abbrev pub max_comparison_items : ℕ
max_comparison_items = 4

abbrev pub is_item : ℕ → ℕ → ComparisonItem → Bool
is_item session_id listing_id item =
    item.comparison_session_id == session_id && item.listing_id == listing_id

abbrev pub is_in_session : ℕ → ComparisonItem → Bool
is_in_session session_id item = item.comparison_session_id == session_id

unfoldable pub get_item : ℕ → ℕ → Table ℕ ComparisonItem → Result (Option (ℕ × ComparisonItem))
get_item session_id listing_id items = one_or_none (select (is_item session_id listing_id) items)

unfoldable pub get_item_count : ℕ → Table ℕ ComparisonItem → ℕ
get_item_count session_id items = count (is_in_session session_id) items

abbrev is_some {ℓ} : {A : Type ℓ} → Option A → Bool
is_some none = false
is_some (some a) = true

-- `session is None or session.deleted_at is not None`
abbrev is_gone : Option ComparisonSession → Bool
is_gone none = true
is_gone (some session) = is_some session.deleted_at

module _ (user_id : ℕ) where
  unfoldable pub create_comparison_session : ℕ → String → Exec Bench ComparisonSession
  create_comparison_session new_id name = do
    let session : ComparisonSession = record { user_id = user_id; name = name; deleted_at = none }
    modify
        λ bench. record bench { comparison_sessions = put new_id session bench.comparison_sessions }
    pure session

  -- The checks before an open session is used.
  unfoldable pub open_session : ℕ → Exec Bench ComparisonSession
  open_session session_id = do
    found ← gets (λ bench. find session_id bench.comparison_sessions)
    raise_if (is_gone found) (not_found "Comparison session not found")
    session ← or_raise (not_found "Comparison session not found") found
    raise_if (not (session.user_id == user_id)) (forbidden "Not your comparison session")
    pure session

  -- The checks of the two handlers that also take a session that is deleted.
  unfoldable pub own_session : ℕ → Exec Bench ComparisonSession
  own_session session_id = do
    found ← gets (λ bench. find session_id bench.comparison_sessions)
    session ← or_raise (not_found "Comparison session not found") found
    raise_if (not (session.user_id == user_id)) (forbidden "Not your comparison session")
    pure session

  unfoldable pub update_comparison_session : ℕ → Option String → Exec Bench ComparisonSession
  unfolding open_session
  update_comparison_session session_id name = do
    old ← open_session session_id
    let session : ComparisonSession = record old { name = or_else name old.name }
    modify λ bench. record bench {
      comparison_sessions = put session_id session bench.comparison_sessions;
    }
    pure session

  unfoldable pub delete_comparison_session : ℕ → ℕ → Exec Bench (Unit {0})
  unfolding own_session
  delete_comparison_session now session_id = do
    session ← own_session session_id
    modify λ bench. record bench {
      comparison_sessions =
          put session_id (record session { deleted_at = some now }) bench.comparison_sessions;
    }

  abbrev return_or_create : ℕ → ℕ → ℕ → Option (ℕ × ComparisonItem) → Exec Bench ComparisonItem
  return_or_create new_id session_id listing_id (some existing) = pure existing.1
  return_or_create new_id session_id listing_id none = do
    items ← gets (λ bench. get_item_count session_id bench.comparison_items)
    raise_if (leb max_comparison_items items)
        (conflict "Comparison session already has the maximum number of items")
    listing ← gets (λ bench. find listing_id bench.listings)
    raise_if (not (is_some listing)) (integrity "listing_id")
    let item : ComparisonItem = record {
      comparison_session_id = session_id;
      listing_id = listing_id;
      position = items;
    }
    modify λ bench. record bench { comparison_items = put new_id item bench.comparison_items }
    pure item

  unfoldable pub add_comparison_item : ℕ → ℕ → ℕ → Exec Bench ComparisonItem
  unfolding open_session
  add_comparison_item new_id session_id listing_id = do
    session ← open_session session_id
    found ← gets (λ bench. get_item session_id listing_id bench.comparison_items)
    existing ← lift found
    return_or_create new_id session_id listing_id existing

  abbrev remove_if_found : Option (ℕ × ComparisonItem) → Exec Bench (Unit {0})
  remove_if_found none = pure tt
  remove_if_found (some (id, item)) =
      modify λ bench. record bench { comparison_items = delete id bench.comparison_items }

  unfoldable pub remove_comparison_item : ℕ → ℕ → Exec Bench (Unit {0})
  unfolding own_session
  remove_comparison_item session_id listing_id = do
    session ← own_session session_id
    found ← gets (λ bench. get_item session_id listing_id bench.comparison_items)
    item ← lift found
    remove_if_found item

-- The requests of a user, each in its transaction.
pub data ComparisonRequest : Type 0 where
  open_new : (user_id new_id : ℕ) → String → ComparisonRequest
  rename : (user_id session_id : ℕ) → Option String → ComparisonRequest
  discard : (user_id now session_id : ℕ) → ComparisonRequest
  add_item : (user_id new_id session_id listing_id : ℕ) → ComparisonRequest
  drop_item : (user_id session_id listing_id : ℕ) → ComparisonRequest

unfoldable pub handle_comparison : ComparisonRequest → Bench → Bench
handle_comparison (open_new user_id new_id name) bench =
    (transaction (create_comparison_session user_id new_id name) bench).1
handle_comparison (rename user_id session_id name) bench =
    (transaction (update_comparison_session user_id session_id name) bench).1
handle_comparison (discard user_id now session_id) bench =
    (transaction (delete_comparison_session user_id now session_id) bench).1
handle_comparison (add_item user_id new_id session_id listing_id) bench =
    (transaction (add_comparison_item user_id new_id session_id listing_id) bench).1
handle_comparison (drop_item user_id session_id listing_id) bench =
    (transaction (remove_comparison_item user_id session_id listing_id) bench).1

unfoldable pub serve_comparisons : Bench → List ComparisonRequest → Bench
serve_comparisons bench [] = bench
serve_comparisons bench (r ∷ rs) = serve_comparisons (handle_comparison r bench) rs
