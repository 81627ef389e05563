-- ===== src/Common/Results.antt =====
-- Fallible reads, and handlers that work in one database session. An exception leaves the session
-- without a commit, so an error carries no new state: the transaction is rolled back.
use mathlib.Core.Bool.{Bool, true, false}
use mathlib.Core.Option.{Option, none, some}
use mathlib.Core.Path.{◌≡◌, refl}
use mathlib.Core.Logic.{◌⊎◌, inl, inr}

pub data Result {ℓ κ} (E : Type ℓ) (A : Type κ) : Type (ℓ ⊔ κ) where
  ok : A → Result E A
  err : E → Result E A

-- A service call: from the committed state to an error, or to a value and the state it commits.
abbrev pub Session : Type 0 → Type 0 → Type 0 → Type 0
Session E S A = S → Result E (A × S)

module _ {E S A : Type 0} where
  abbrev pub pure : A → Session E S A
  pure a s = ok (a, s)

  abbrev pub raise : E → Session E S A
  raise e s = err e

  abbrev pub gets : (S → A) → Session E S A
  gets f s = ok (f s, s)

  -- `if x is None: raise e`
  abbrev pub or_raise : Option A → E → Session E S A
  or_raise none e s = err e
  or_raise (some a) e s = ok (a, s)

module _ {E S : Type 0} where
  abbrev pub modify : (S → S) → Session E S (Unit {0})
  modify f s = ok (tt, f s)

  -- `if test: raise e`
  abbrev pub raise_if : Bool → E → Session E S (Unit {0})
  raise_if true e s = err e
  raise_if false e s = ok (tt, s)

infixl 5 ◌>>=◌ ◌>>◌
abbrev pub ◌>>=◌ : {E S A B : Type 0} → Session E S A → (A → Session E S B) → Session E S B
◌>>=◌ m f s = elim (m s) [ ok r ↦ f r.0 r.1 | err e ↦ err e ]

abbrev pub ◌>>◌ : {E S A B : Type 0} → Session E S A → Session E S B → Session E S B
m >> k = m >>= λ _. k

pub Result-cases {ℓ κ} :
    {E : Type ℓ} {A : Type κ} (m : Result E A) → ((a : A) × (m ≡ ok a)) ⊎ ((e : E) × (m ≡ err e))
Result-cases (ok a) = inl (a, refl)
Result-cases (err e) = inr (e, refl)

-- What a call returns, or a default.
abbrev pub returned {ℓ κ} : {E : Type ℓ} {A : Type κ} → Result E A → A → A
returned (ok r) d = r
returned (err e) d = d
