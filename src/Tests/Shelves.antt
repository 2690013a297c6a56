-- ===== src/Tests/Shelves.antt =====
-- Runs of the requests on saved listings and comparison sessions.
use akar_ai.Prelude.{ℕ, ◌≡◌, refl, none, List, [], ◌∷◌, arith, nat_key, nat_beq_iff}
use akar_ai.Exec.{ok, transaction}
use akar_ai.Table.{find, delete, count, select}
use akar_ai.Saved.Service.{SavedListing, Shelf, unsave, handle_saved, is_saved}
use akar_ai.Saved.Lookup.{IsIndexed}
use akar_ai.Saved.Views.{view_after, handle_saved-view}
use akar_ai.Comparisons.Service.{
  ComparisonItem, ComparisonSession, Bench, ComparisonRequest, add_item, drop_item, get_item,
  get_item_count, open_session, own_session, add_comparison_item, remove_comparison_item,
  handle_comparison, serve_comparisons,
}
use akar_ai.Comparisons.Effects.{IsBounded}
use akar_ai.Comparisons.Limit.{serve_comparisons-IsBounded}
use akar_ai.Tests.Data.{villa}

abbrev favourite : SavedListing
favourite = record { user_id = 9; listing_id = 1; deleted_at = none }

abbrev shelf : Shelf
shelf = record { listings = (1, villa) ∷ []; saved_listings = (3, favourite) ∷ [] }

shelf-IsIndexed : IsIndexed shelf.saved_listings
unfolding count find
shelf-IsIndexed = record { keyed = (refl, tt); unique = λ u l. ground arith }

handle_saved-view_example :
    is_saved 9 1 (handle_saved (unsave 9 50 1) shelf) ≡ view_after shelf (unsave 9 50 1) 9 1
handle_saved-view_example = handle_saved-view shelf (unsave 9 50 1) 9 1 shelf-IsIndexed tt

abbrev mine : ComparisonSession
mine = record { user_id = 9; name = "Sea view"; deleted_at = none }

abbrev at : ℕ → ℕ → ComparisonItem
at listing_id position = record {
  comparison_session_id = 5;
  listing_id = listing_id;
  position = position;
}

abbrev bench : Bench
bench = record {
  listings = (1, villa) ∷ (2, villa) ∷ (3, villa) ∷ [];
  comparison_sessions = (5, mine) ∷ [];
  comparison_items = (11, at 1 0) ∷ (12, at 2 1) ∷ [];
}

bench-IsBounded : IsBounded bench.comparison_items
unfolding count find get_item_count
bench-IsBounded = record {
  keyed = (refl, (refl, tt));
  unique = λ s l. ground (arith, nat_beq_iff 1 l, nat_beq_iff 2 l);
  within = λ s. ground arith;
}

abbrev changes : List ComparisonRequest
changes = drop_item 9 5 1 ∷ add_item 9 13 5 3 ∷ []

changes-fresh : find 13 (handle_comparison (drop_item 9 5 1) bench).comparison_items ≡ none
unfolding find handle_comparison transaction remove_comparison_item own_session get_item select
    delete
changes-fresh = refl

serve_comparisons-IsBounded_example : IsBounded (serve_comparisons bench changes).comparison_items
serve_comparisons-IsBounded_example =
    serve_comparisons-IsBounded bench changes bench-IsBounded (tt, (changes-fresh, tt))

abbrev dropped : Bench
dropped = (handle_comparison (drop_item 9 5 1) bench)

dropped_items : dropped.comparison_items ≡ (12, at 2 1) ∷ []
unfolding find handle_comparison transaction remove_comparison_item own_session get_item select
    delete
dropped_items = refl

added_item : (add_comparison_item 9 13 5 3 dropped).0 ≡ ok (at 3 1)
unfolding find handle_comparison transaction remove_comparison_item own_session get_item select
    delete add_comparison_item open_session get_item_count count
added_item = refl
