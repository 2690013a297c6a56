-- ===== src/Prelude/Tests.antt =====
-- Python's comparisons as Boolean tests, and the conditional.
use Prim.Native.Nat.{ℕ, compare, Ordering}
use Prim.Native.String.{String}
use mathlib.Core.Path.{◌≡◌, refl}
use mathlib.Core.Logic.{◌↔◌, ◌⊎◌, inl, inr}
use mathlib.Core.Bool.{Bool, true, false}
use mathlib.Core.Option.{Option, none, some}
use native.Mathlib.Omega.{arith}
pub use text.Mathlib.Text.{◌==◌ as str_eq}
use text.Mathlib.TextEquality.{eq_iff}

abbrev pub ltb : ℕ → ℕ → Bool
ltb a b = elim (compare a b) [ Ordering.lt ↦ true | _ ↦ false ]

abbrev pub leb : ℕ → ℕ → Bool
leb a b = elim (compare a b) [ Ordering.gt ↦ false | _ ↦ true ]

abbrev pub nat_beq : ℕ → ℕ → Bool
nat_beq a b = elim (compare a b) [ Ordering.eq ↦ true | _ ↦ false ]

infix 1 if◌then◌else◌
abbrev pub if◌then◌else◌ {ℓ} : {A : Type ℓ} → Bool → A → A → A
if true then x else y = x
if false then x else y = y

pub nat_beq_iff : (a b : ℕ) → (nat_beq a b ≡ true) ↔ (a ≡ b)
nat_beq_iff a b = ground arith

-- Ids and counters compare as numbers.
infix 50 ◌==◌
abbrev pub ◌==◌ : ℕ → ℕ → Bool
◌==◌ = nat_beq

-- A type whose values can be the primary key of a table: `matches` decides its equality.
pub record IsKey {κ} (Key : Type κ) : Type κ where
  pub matches : Key → Key → Bool
  pub matches_iff : (k j : Key) → (matches k j ≡ true) ↔ (k ≡ j)

-- The ids of rows.
instance abbrev pub nat_key : IsKey ℕ
nat_key = record { matches = nat_beq; matches_iff = nat_beq_iff }

-- The keys of Redis.
instance abbrev pub text_key : IsKey String
text_key = record { matches = str_eq; matches_iff = eq_iff }

pub Bool-cases : (b : Bool) → (b ≡ true) ⊎ (b ≡ false)
Bool-cases true = inl refl
Bool-cases false = inr refl

pub Option-cases {ℓ} : {A : Type ℓ} (o : Option A) → (o ≡ none) ⊎ ((a : A) × (o ≡ some a))
Option-cases none = inl refl
Option-cases (some a) = inr (a, refl)

-- An optional id compared with an id: `None` equals none.
abbrev pub some_is : Option ℕ → ℕ → Bool
some_is none a = false
some_is (some b) a = b == a

-- `d.get(key, default)` and `x or default` on an optional value.
abbrev pub or_else {ℓ} : {A : Type ℓ} → Option A → A → A
or_else none d = d
or_else (some a) d = a

-- `status == "..."` on a nullable column or an optional argument.
abbrev pub str_is : Option String → String → Bool
str_is none a = false
str_is (some b) a = str_eq b a

-- Timestamps and durations are in microseconds, Python's resolution.
abbrev pub second : ℕ
second = 1_000_000
