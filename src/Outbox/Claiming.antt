-- ===== src/Outbox/Claiming.antt =====
-- Which event the worker claims.
use akar_ai.Prelude.{
  ℕ, ◌≤◌, String, true, false, ◌≡◌, ◌≢◌, ◌⊎◌, Option, none, some, [], ◌∷◌, All, arith, str_eq_iff,
  nat_key, nat_beq_iff, Option-cases, inl, inr,
}
use akar_ai.Table.{Table, find, put, find-put, IsKeyed, put-IsKeyed}
use akar_ai.Outbox.{OutboxRow, Handler, is_ready, earliest, claimed, dispatch, claim_and_dispatch}

pub earliest-find :
    (now : ℕ) (rows : Table ℕ OutboxRow) (id : ℕ) (row : OutboxRow)
    → IsKeyed rows
    → earliest now rows ≡ some (id, row)
    → (find id rows ≡ some row) × (is_ready now row ≡ true)
unfolding earliest find
earliest-find now [] id row h e = absurd (ground arith)
earliest-find now ((k, r) ∷ rows) id row (new, h) e = elim (Option-cases (earliest now rows)) [
  | inl nothing ↦ ground (arith, nothing, nat_beq_iff k id)
  | inr ((j, s), found) ↦
      ground (arith, found, earliest-find now rows j s h found, nat_beq_iff k id, nat_beq_iff k j)
]

abbrev pub NoneReady : ℕ → Table ℕ OutboxRow → Type 0
NoneReady now rows = All (λ entry. is_ready now entry.1 ≡ false) rows

earliest-none : (now : ℕ) (rows : Table ℕ OutboxRow) → earliest now rows ≡ none → NoneReady now rows
unfolding earliest
earliest-none now [] h = tt
earliest-none now ((k, r) ∷ rows) h = elim (Option-cases (earliest now rows)) [
  | inl nothing ↦ (ground (arith, nothing), earliest-none now rows nothing)
  | inr ((j, s), found) ↦ absurd (ground (arith, found))
]

abbrev pub IsFirst : ℕ → OutboxRow → Table ℕ OutboxRow → Type 0
IsFirst now row rows =
    All (λ entry. is_ready now entry.1 ≡ true → row.available_at ≤ entry.1.available_at) rows

IsFirst-weaken :
    (now : ℕ) (row other : OutboxRow) (rows : Table ℕ OutboxRow)
    → row.available_at ≤ other.available_at
    → IsFirst now other rows
    → IsFirst now row rows
IsFirst-weaken now row other [] le h = tt
IsFirst-weaken now row other ((k, r) ∷ rows) le (first, h) =
    (λ ready. omega (arith, first ready), IsFirst-weaken now row other rows le h)

NoneReady-IsFirst :
    (now : ℕ) (row : OutboxRow) (rows : Table ℕ OutboxRow)
    → NoneReady now rows
    → IsFirst now row rows
NoneReady-IsFirst now row [] h = tt
NoneReady-IsFirst now row ((k, r) ∷ rows) (off, h) =
    (λ ready. absurd (cc), NoneReady-IsFirst now row rows h)

earliest-IsFirst :
    (now : ℕ) (rows : Table ℕ OutboxRow) (id : ℕ) (row : OutboxRow)
    → earliest now rows ≡ some (id, row)
    → IsFirst now row rows
unfolding earliest
earliest-IsFirst now [] id row e = absurd (ground arith)
earliest-IsFirst now ((k, r) ∷ rows) id row e = elim (Option-cases (earliest now rows)) [
  | inl nothing ↦
      let same : row ≡ r = ground (arith, nothing) in
      (
        λ ready. ground (arith, same),
        NoneReady-IsFirst now row rows (earliest-none now rows nothing),
      )
  | inr ((j, s), found) ↦
      let le : row.available_at ≤ s.available_at = ground (arith, found) in
      (
        λ ready. ground (arith, found),
        IsFirst-weaken now row s rows le (earliest-IsFirst now rows j s found),
      )
]

module _ (uniform : ℕ → ℕ → ℕ) (handlers : String → Option Handler) (now : ℕ)
    (rows : Table ℕ OutboxRow) where
  pub record Claimed : Type 0 where
    pub id : ℕ
    pub row : OutboxRow
    pub found : find id rows ≡ some row
    pub ready : is_ready now row ≡ true
    pub first : IsFirst now row rows
    pub result :
        claim_and_dispatch uniform handlers now rows
        ≡ (true, put id (dispatch uniform handlers now (claimed row)) (put id (claimed row) rows))

  -- On rows with distinct keys, a round of the worker either finds no pending event that is due
  -- and changes nothing, or takes the one that has been due the longest and writes its row and no
  -- other.
  pub claim_and_dispatch-cases :
      IsKeyed rows
      → (NoneReady now rows × (claim_and_dispatch uniform handlers now rows ≡ (false, rows)))
        ⊎ Claimed
  unfolding claim_and_dispatch
  claim_and_dispatch-cases h = elim (Option-cases (earliest now rows)) [
    | inl nothing ↦ inl (earliest-none now rows nothing, ground (arith, nothing))
    | inr ((id, row), e) ↦
        let (found, ready) = earliest-find now rows id row h e in
        inr (record {
          id = id;
          row = row;
          found = found;
          ready = ready;
          first = earliest-IsFirst now rows id row e;
          result = rw (e, claim_and_dispatch);
        })
  ]

  pub claim_and_dispatch-IsKeyed :
      IsKeyed rows → IsKeyed (claim_and_dispatch uniform handlers now rows).1
  claim_and_dispatch-IsKeyed h = elim (claim_and_dispatch-cases h) [
    | inl (off, e) ↦ rw e h
    | inr c ↦ rw c.result (put-IsKeyed c.id _ _ (put-IsKeyed c.id (claimed c.row) rows h))
  ]

  -- On rows with distinct keys, a round of the worker leaves a row that is not pending as it is:
  -- delivered and dead events are final, and so is an event that a worker claimed and did not
  -- finish.
  pub not_pending_stays :
      (id : ℕ) (row : OutboxRow)
      → IsKeyed rows
      → find id rows ≡ some row
      → row.status ≢ "pending"
      → find id (claim_and_dispatch uniform handlers now rows).1 ≡ some row
  not_pending_stays id row h found off = elim (claim_and_dispatch-cases h) [
    | inl (nothing, e) ↦ rw e found
    | inr c ↦
        rw (c.result, find-put, find-put)
          (ground (arith, c.found, c.ready, nat_beq_iff c.id id, str_eq_iff c.row.status "pending"))
  ]
