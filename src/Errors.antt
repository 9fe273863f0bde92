-- ===== src/Errors.antt =====
-- The exceptions that the modelled code raises or passes on, and results that may be one:
-- custom_components/geofence_journal/storage/errors.py and the modules that raise them.
use mathlib.Core.Path.{◌≡◌, refl}
use mathlib.Core.Logic.{◌⊎◌, inl, inr}

pub data Error : Type 0 where
  runtime_invariant : Error  -- RuntimeInvariantError
  overflow : Error  -- OverflowError of a datetime
  database_schema : Error  -- DatabaseSchemaError
  sqlite : Error  -- sqlite3.Error
  injected_fault : Error  -- InjectedStorageFaultError
  unsupported_schema_version : Error  -- UnsupportedSchemaVersionError
  storage_closed : Error  -- StorageClosedError
  missing_reference : Error  -- MissingEventReferenceError
  event_not_found : Error  -- EventNotFoundError
  purge_confirmation : Error  -- PurgeConfirmationError
  reset_confirmation : Error  -- ResetConfirmationError
  service_validation : Error  -- PydanticCustomError
  os_error : Error  -- OSError
  out_of_fuel : Error  -- no exception: the model's fuel has run out

pub data Result {ℓ} (A : Type ℓ) : Type ℓ where
  ok : A → Result A
  err : Error → Result A

infixl 5 ◌>>=◌
abbrev pub ◌>>=◌ {ℓ κ} : {A : Type ℓ} {B : Type κ} → Result A → (A → Result B) → Result B
ok a >>= f = f a
err e >>= f = err e

pub Result-cases {ℓ} :
    {A : Type ℓ} (r : Result A) → ((a : A) × (r ≡ ok a)) ⊎ ((x : Error) × (r ≡ err x))
Result-cases (ok a) = inl (a, refl)
Result-cases (err x) = inr (x, refl)
