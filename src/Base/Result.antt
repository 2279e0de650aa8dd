-- ===== src/Base/Result.antt =====
-- Exceptions as values. `http` is one of Nest's HTTP exceptions, with its status code; `error` is a
-- plain `Error`, `range_error` a `RangeError`.
use sentinel_project.Base.{String, ℕ}

pub data Exception : Type 0 where
  http : ℕ → String → Exception
  error : String → Exception
  range_error : String → Exception

pub data Result {ℓ} (A : Type ℓ) : Type ℓ where
  ok : A → Result A
  throw : Exception → Result A

-- A method that reads and changes a state `S`.
abbrev pub Exec {ℓ κ} : Type ℓ → Type κ → Type (ℓ ⊔ κ)
Exec S A = S → Result A × S

infixl 5 ◌>>◌ ◌>>=◌
abbrev pub ◌>>=◌ {ℓ κ} : {X : Type ℓ} {Y : Type κ} → Result X → (X → Result Y) → Result Y
throw e >>= k = throw e
ok x >>= k = k x

abbrev pub ◌>>◌ {ℓ} : {B : Type ℓ} → Result (Unit {0}) → Result B → Result B
m >> k = m >>= λ _. k

abbrev pub bad_request : String → Exception
bad_request m = http 400 m

abbrev pub not_found : String → Exception
not_found m = http 404 m

abbrev pub forbidden : String → Exception
forbidden m = http 403 m

abbrev pub unauthorized : String → Exception
unauthorized m = http 401 m

abbrev pub unavailable : String → Exception
unavailable m = http 503 m
