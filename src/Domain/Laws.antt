-- ===== src/Domain/Laws.antt =====
-- What the transition tables of domain.py allow.
use akar_ai.Prelude.{
  String, ◌≡◌, refl, ◌↔◌, ◌⊎◌, true, false, List, [], ◌∷◌, arith, str_eq, str_eq_iff, contains,
  Bool-cases, inl, inr, if◌then◌else◌,
}
use akar_ai.Domain.{
  TransitionTable, listing_status_transitions, lead_status_transitions, viewing_status_transitions,
  allows,
}

allows-nil : (s t : String) → allows [] s t ≡ false
unfolding allows
allows-nil s t = refl

-- A table is read entry by entry.
allows-cons :
    (j : String) (ts : List String) (m : TransitionTable) (s t : String)
    → allows ((j, ts) ∷ m) s t ≡ (if str_eq j s then contains ts t else allows m s t)
unfolding allows
allows-cons j ts m s t = elim (Bool-cases (str_eq j s)) [
  | inl same ↦ rw same
  | inr other ↦ rw other
]

ruleset read_table = (allows-nil, allows-cons)

-- A viewing leaves "scheduled" once, for one of the four final statuses.
pub viewing_allows_iff :
    (s t : String)
    → (allows viewing_status_transitions s t ≡ true) ↔ (
        (s ≡ "scheduled")
        × ((t ≡ "cancelled_by_user")
            ⊎ (t ≡ "cancelled_by_agency")
            ⊎ (t ≡ "completed")
            ⊎ (t ≡ "no_show")))
unfolding viewing_status_transitions
viewing_allows_iff s t = simp read_table (
    ground (
      arith,
      str_eq_iff "scheduled" s,
      str_eq_iff "cancelled_by_user" t,
      str_eq_iff "cancelled_by_agency" t,
      str_eq_iff "completed" t,
      str_eq_iff "no_show" t,
    ))

-- A lead moves forward only: from new to reviewed or closed, and from reviewed to closed.
pub lead_allows_iff :
    (s t : String)
    → (allows lead_status_transitions s t ≡ true) ↔ (
        ((s ≡ "new") × (t ≡ "reviewed"))
        ⊎ ((s ≡ "new") × (t ≡ "closed"))
        ⊎ ((s ≡ "reviewed") × (t ≡ "closed")))
unfolding lead_status_transitions
lead_allows_iff s t = simp read_table (
    ground (
      arith,
      str_eq_iff "new" s,
      str_eq_iff "reviewed" s,
      str_eq_iff "reviewed" t,
      str_eq_iff "closed" t,
    ))

-- A listing switches between active and inactive, and is archived from active only.
pub listing_allows_iff :
    (s t : String)
    → (allows listing_status_transitions s t ≡ true) ↔ (
        ((s ≡ "inactive") × (t ≡ "active"))
        ⊎ ((s ≡ "active") × (t ≡ "inactive"))
        ⊎ ((s ≡ "active") × (t ≡ "archived")))
unfolding listing_status_transitions
listing_allows_iff s t = simp read_table (
    ground (
      arith,
      str_eq_iff "inactive" s,
      str_eq_iff "active" s,
      str_eq_iff "active" t,
      str_eq_iff "inactive" t,
      str_eq_iff "archived" t,
      str_eq_iff "inactive" "active",
    ))

-- What a viewing moves to is a final status.
pub viewing_allows-final :
    (s t : String) → allows viewing_status_transitions s t ≡ true → str_eq t "scheduled" ≡ false
viewing_allows-final s t h = ground (
  arith,
  (viewing_allows_iff s t).0 h,
  str_eq_iff t "scheduled",
  str_eq_iff "cancelled_by_user" "scheduled",
  str_eq_iff "cancelled_by_agency" "scheduled",
  str_eq_iff "completed" "scheduled",
  str_eq_iff "no_show" "scheduled",
)
