-- ===== src/Http.antt =====
-- What a handler of the API answers: a value, or one of NestJS's HTTP exceptions with its message.
use Prim.Native.String.{String}
use versi_go.Prelude.{◌≡◌, refl, ◌⊎◌, inl, inr, Bool, true, false}

pub data HttpError : Type 0 where
  bad_request : String → HttpError
  unauthorized : String → HttpError
  forbidden : String → HttpError
  not_found : String → HttpError
  conflict : String → HttpError
  bad_gateway : String → HttpError
  service_unavailable : String → HttpError
  -- an error that is no HTTP exception
  thrown : String → HttpError

pub data Result {ℓ} (Value : Type ℓ) : Type ℓ where
  err : HttpError → Result Value
  ok : Value → Result Value

-- An exception ends the handler; a value goes on to the rest of it.
infixl 5 ◌>>=◌
abbrev pub ◌>>=◌ {ℓ κ} :
    {Value : Type ℓ} {Next : Type κ} → Result Value → (Value → Result Next) → Result Next
err exception >>= rest = err exception
ok value >>= rest = rest value

infixl 5 ◌>>◌
abbrev pub ◌>>◌ {κ} : {Next : Type κ} → Result (Unit {0}) → Result Next → Result Next
checked >> rest = checked >>= λ _. rest

-- `if (!test) throw e`
abbrev pub require : Bool → HttpError → Result (Unit {0})
require true e = ok tt
require false e = err e

-- `if (test) throw e`
abbrev pub refuse : Bool → HttpError → Result (Unit {0})
refuse true e = err e
refuse false e = ok tt

-- The state behind a transaction: an error rolls back.
abbrev pub commit {ℓ} : {S : Type ℓ} → S → Result S → S
commit s (ok s') = s'
commit s (err e) = s

pub Result-cases {ℓ} :
    {Value : Type ℓ} (r : Result Value)
    → ((v : Value) × (r ≡ ok v)) ⊎ ((e : HttpError) × (r ≡ err e))
Result-cases (ok v) = inl (v, refl)
Result-cases (err e) = inr (e, refl)
