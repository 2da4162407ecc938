-- ===== src/Prelude/Results.antt =====
-- A service method that may throw: the exception classes of `@nestjs/common` that the code throws.
use mathlib.Core.Bool.{Bool, true, false}
use mathlib.Core.Option.{Option, none, some}
use mathlib.Core.Path.{◌≡◌, refl}
use mathlib.Core.Logic.{◌⊎◌, inl, inr}

pub data HttpError : Type 0 where
  bad_request unauthorized forbidden not_found conflict : HttpError

-- What a method returns, or the exception that it throws.
pub data Result {v} (Value : Type v) : Type v where
  err : HttpError → Result Value
  ok : Value → Result Value

infixl 5 ◌>>=◌ ◌>>◌
-- `await` on a method that may throw, then the rest of the body.
abbrev pub ◌>>=◌ {v u} :
    {Value : Type v} {Next : Type u} → Result Value → (Value → Result Next) → Result Next
first >>= rest = elim first [ err thrown ↦ err thrown | ok value ↦ rest value ]

abbrev pub ◌>>◌ {u} : {Next : Type u} → Result (Unit {0}) → Result Next → Result Next
first >> rest = elim first [ err thrown ↦ err thrown | ok value ↦ rest ]

-- `if (!test) throw e`
abbrev pub demand : Bool → HttpError → Result (Unit {0})
demand test thrown = elim test [ false ↦ err thrown | true ↦ ok tt ]

-- `if (!row) throw e`
abbrev pub or_throw {v} : {Row : Type v} → Option Row → HttpError → Result Row
or_throw row thrown = elim row [ none ↦ err thrown | some found ↦ ok found ]

pub Result-cases {ℓ} :
    {A : Type ℓ} (r : Result A) → ((e : HttpError) × (r ≡ err e)) ⊎ ((a : A) × (r ≡ ok a))
Result-cases (err e) = inl (e, refl)
Result-cases (ok a) = inr (a, refl)
