-- ===== src/Comparisons/Limit.antt =====
-- How many items a comparison session has, and at which positions.
use akar_ai.Prelude.{
  ℕ, ◌+◌, ◌≡◌, refl, ap, subst, inl, inr, some, none, List, [], ◌∷◌, arith, nat_beq_iff, nat_key,
}
use akar_ai.Exec.{ok}
use akar_ai.Table.{
  Table, find, find-put, find-put_self, count, put-IsKeyed, count-put_new, delete-IsKeyed,
  count-delete_le,
}
use akar_ai.Comparisons.Service.{
  ComparisonItem, Bench, is_item, is_in_session, get_item_count, ComparisonRequest, drop_item,
  handle_comparison, serve_comparisons, add_comparison_item,
}
use akar_ai.Comparisons.Effects.{
  IsBounded, IsFreshItem, AreFreshItems, add_comparison_item-Placed, ItemsChange, as_before, placed,
  dropped, handle-ItemsChange,
}

handle-IsBounded :
    (bench : Bench) (r : ComparisonRequest) (items : Table ℕ ComparisonItem)
    → IsBounded bench.comparison_items
    → IsFreshItem bench r
    → ItemsChange bench r items
    → IsBounded items
unfolding get_item_count
handle-IsBounded bench r items bounded fresh (as_before same) = rw same bounded
handle-IsBounded bench r items bounded fresh (placed u new_id s l item is_add p) =
    let new = subst (λ q. IsFreshItem bench q) is_add fresh in
    let of_session : item.comparison_session_id ≡ s = ap (λ i. i.comparison_session_id) p.made in
    let of_listing : item.listing_id ≡ l = ap (λ i. i.listing_id) p.made in
    rw p.written (record {
      keyed = put-IsKeyed new_id item bench.comparison_items bounded.keyed;
      unique = λ s2 l2. ground (
        arith,
        bounded.unique s2 l2,
        p.new_pair,
        nat_beq_iff item.comparison_session_id s2,
        nat_beq_iff item.listing_id l2,
        count-put_new (is_item s2 l2) new_id item bench.comparison_items new,
      );
      within = λ s2. ground (
        arith,
        bounded.within s2,
        p.room,
        nat_beq_iff item.comparison_session_id s2,
        count-put_new (is_in_session s2) new_id item bench.comparison_items new,
      );
    })
handle-IsBounded bench r items bounded fresh (dropped u s l is_drop d) = rw d.written (record {
  keyed = delete-IsKeyed d.id bench.comparison_items bounded.keyed;
  unique = λ s2 l2.
      ground
        (arith, bounded.unique s2 l2, count-delete_le (is_item s2 l2) d.id bench.comparison_items);
  within = λ s2.
      ground
        (arith, bounded.within s2, count-delete_le (is_in_session s2) d.id bench.comparison_items);
})

-- A comparison session never has more than the maximum number of items, nor a listing twice.
pub serve_comparisons-IsBounded :
    (bench : Bench) (rs : List ComparisonRequest)
    → IsBounded bench.comparison_items
    → AreFreshItems bench rs
    → IsBounded (serve_comparisons bench rs).comparison_items
unfolding serve_comparisons
serve_comparisons-IsBounded bench [] bounded fresh = bounded
serve_comparisons-IsBounded bench (r ∷ rs) bounded (fresh, later) =
    serve_comparisons-IsBounded (handle_comparison r bench) rs
      (handle-IsBounded bench r _ bounded fresh (handle-ItemsChange bench r bounded)) later

-- A new item takes the number of items as its position. After an item before the last one was
-- dropped, that is the last one's position: two items of a session then share it.
pub add_comparison_item-after_drop :
    (bench : Bench) (u s dropped_listing new_id l last_id : ℕ) (item last : ComparisonItem)
    → IsBounded bench.comparison_items
    → let after = handle_comparison (drop_item u s dropped_listing) bench in
      let added = add_comparison_item u new_id s l after in
      get_item_count s after.comparison_items + 1 ≡ get_item_count s bench.comparison_items
      → find last_id after.comparison_items ≡ some last
      → last.position + 1 ≡ get_item_count s bench.comparison_items
      → find new_id after.comparison_items ≡ none
      → count (is_item s l) after.comparison_items ≡ 0
      → added.0 ≡ ok item
      → (find new_id added.1.comparison_items ≡ some item)
        × (find last_id added.1.comparison_items ≡ some last)
        × (item.position ≡ last.position)
add_comparison_item-after_drop bench u s dropped_listing new_id l last_id item last bounded fewer
      found_last at_end fresh new_pair done =
    let after = handle_comparison (drop_item u s dropped_listing) bench in
    let bounded' =
      handle-IsBounded bench (drop_item u s dropped_listing) after.comparison_items bounded tt
        (handle-ItemsChange bench (drop_item u s dropped_listing) bounded) in
    elim (add_comparison_item-Placed after bounded' u new_id s l item done) [
      | inl (same, one) ↦ absurd (omega (arith, one, new_pair))
      | inr p ↦
          let at : item.position ≡ get_item_count s after.comparison_items =
            ap (λ i. i.position) p.made in
          (
            rw (p.written, find-put_self) refl,
            rw (p.written, find-put)
                (ground (arith, fresh, found_last, nat_beq_iff new_id last_id)),
            omega (arith, at, fewer, at_end),
          )
    ]
