-- ===== src/Exec.antt =====
-- backend/app/common/exceptions.py, the exception handlers of backend/app/main.py, and the request
-- transaction of backend/app/common/dependencies.py: a service method is an action on the open
-- database session that returns or raises. What it wrote before a raise is in the session beside
-- the error; the request then rolls it back.
use akar_ai.Prelude.{
  ℕ, String, Bool, true, false, ◌≡◌, refl, ◌⊎◌, inl, inr, Option, none, some, arith,
}

pub data Error : Type 0 where
  -- the subclasses of `AppException`, each with its `detail`
  not_found validation service_unavailable unauthorized forbidden conflict : String → Error
  rate_limit_exceeded : String → Error
  -- `AppException` itself, raised with its own status code, detail and error code
  app_exception : ℕ → String → String → Error
  -- Python's `PermissionError`, which common/tenant.py raises
  permission : String → Error
  -- what the database raises on a NOT NULL violation, and any other uncaught exception
  integrity uncaught : String → Error

-- The status code of the response to a request that raised.
unfoldable pub status_code : Error → ℕ
status_code (not_found _) = 404
status_code (validation _) = 422
status_code (service_unavailable _) = 503
status_code (unauthorized _) = 401
status_code (forbidden _) = 403
status_code (conflict _) = 409
status_code (rate_limit_exceeded _) = 429
status_code (app_exception code _ _) = code
status_code (permission _) = 403
status_code (integrity _) = 500
status_code (uncaught _) = 500

pub data Result {ℓ} (A : Type ℓ) : Type ℓ where
  ok : A → Result A
  err : Error → Result A

-- What returned did not raise.
pub ok-not_err {ℓ} : {A : Type ℓ} {r : Result A} {a : A} → r ≡ ok a → (e : Error) → r ≡ err e → ⊥
ok-not_err returned e raised = absurd (ground (arith, returned, raised))

-- Which errors a call raises, and what holds when it raises none.
abbrev pub Raised {ℓ} : {A : Type ℓ} → Result A → Type ℓ
Raised r = (e : Error) × (r ≡ err e)

pub passed_guards {ℓ} : {A G : Type ℓ} {r : Result A} {a : A} → Raised r ⊎ G → r ≡ ok a → G
passed_guards (inl (e, raised)) returned = absurd (ok-not_err returned e raised)
passed_guards (inr g) returned = g

pub ok-same {ℓ} : {A : Type ℓ} {a b : A} → ok a ≡ ok b → a ≡ b
ok-same h = cc

pub Result-cases {ℓ} :
    {A : Type ℓ} (r : Result A) → ((a : A) × (r ≡ ok a)) ⊎ ((e : Error) × (r ≡ err e))
Result-cases (ok a) = inl (a, refl)
Result-cases (err e) = inr (e, refl)

abbrev pub Exec {ℓ} : Type ℓ → Type ℓ → Type ℓ
Exec S A = S → Result A × S

module _ {ℓ} {S A : Type ℓ} where
  abbrev pub pure : A → Exec S A
  pure a s = (ok a, s)

  abbrev pub raise : Error → Exec S A
  raise e s = (err e, s)

  abbrev pub lift : Result A → Exec S A
  lift r s = (r, s)

  abbrev pub gets : (S → A) → Exec S A
  gets f s = (ok (f s), s)

  -- `if x is None: raise e`
  abbrev pub or_raise : Error → Option A → Exec S A
  or_raise e none s = (err e, s)
  or_raise e (some a) s = (ok a, s)

module _ {ℓ} {S A B : Type ℓ} where
  abbrev after : Result A → (A → Exec S B) → Exec S B
  after (ok a) f s = f a s
  after (err e) f s = (err e, s)

  infixl 5 ◌>>=◌ ◌>>◌
  abbrev pub ◌>>=◌ : Exec S A → (A → Exec S B) → Exec S B
  ◌>>=◌ m f s = after (m s).0 f (m s).1

  abbrev pub ◌>>◌ : Exec S A → Exec S B → Exec S B
  m >> n = m >>= λ _. n

module _ {S : Type 0} where
  abbrev pub modify : (S → S) → Exec S (Unit {0})
  modify f s = (ok tt, f s)

  -- `if test: raise e`
  abbrev pub raise_if : Bool → Error → Exec S (Unit {0})
  raise_if true e s = (err e, s)
  raise_if false e s = (ok tt, s)

module _ {S A : Type 0} where
  -- `get_db_session`: commit after the handler returned, roll back if it raised.
  abbrev settle : S → Result A → S → Result A × S
  settle before (ok a) written = (ok a, written)
  settle before (err e) written = (err e, before)

  unfoldable pub transaction : Exec S A → Exec S A
  transaction m s = settle s (m s).0 (m s).1

  -- A request that raised leaves the database as it found it, whatever the handler had written.
  pub transaction_rollback :
      (m : Exec S A) (s : S) (e : Error) → (transaction m s).0 ≡ err e → (transaction m s).1 ≡ s
  unfolding transaction
  transaction_rollback m s e h = settled (m s).0 (m s).1 h
    where
      settled : (r : Result A) (w : S) → (settle s r w).0 ≡ err e → (settle s r w).1 ≡ s
      settled (ok a) w h = cc
      settled (err _) w h = refl

  -- After a request the database is as before, or as the handler that returned left it.
  pub transaction-cases :
      (m : Exec S A) (s : S)
      → ((transaction m s).1 ≡ s) ⊎ ((a : A) × ((m s).0 ≡ ok a) × ((transaction m s).1 ≡ (m s).1))
  unfolding transaction
  transaction-cases m s = settled (m s).0 refl
    where
      settled :
          (r : Result A)
          → (m s).0 ≡ r
          → ((settle s (m s).0 (m s).1).1 ≡ s)
            ⊎ ((a : A) × ((m s).0 ≡ ok a) × ((settle s (m s).0 (m s).1).1 ≡ (m s).1))
      settled (ok a) e = inr (a, e, rw e)
      settled (err _) e = inl (rw e)

  transaction_raised :
      (m : Exec S A) (s : S) (e : Error) → (m s).0 ≡ err e → (transaction m s).1 ≡ s
  unfolding transaction
  transaction_raised m s e h = rw h refl

  transaction_returned :
      (m : Exec S A) (s : S) (a : A) → (m s).0 ≡ ok a → (transaction m s).1 ≡ (m s).1
  unfolding transaction
  transaction_returned m s a h = rw h refl

  -- The same, with the error when the database is as before.
  pub transaction-outcome :
      (m : Exec S A) (s : S)
      → (Raised (m s).0 × ((transaction m s).1 ≡ s))
        ⊎ ((a : A) × ((m s).0 ≡ ok a) × ((transaction m s).1 ≡ (m s).1))
  transaction-outcome m s = elim (Result-cases (m s).0) [
    | inr raised ↦ inl (raised, transaction_raised m s raised.0 raised.1)
    | inl (a, returned) ↦ inr (a, returned, transaction_returned m s a returned)
  ]
