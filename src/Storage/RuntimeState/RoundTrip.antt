-- ===== src/Storage/RuntimeState/RoundTrip.antt =====
-- What is saved is loaded again.
use hass_geofence_journal.Prelude.{◌≡◌, refl, true, false, Option, none, some, arith}
use hass_geofence_journal.Errors.{ok}
use hass_geofence_journal.Float.{
  Float, finite, inf, neg_inf, nan, isfinite, lt_float, of_ℕ, neg_of_ℕ,
}
use hass_geofence_journal.Models.{Coordinates}
use hass_geofence_journal.Storage.Records.{
  RuntimeStateRecord, is_number, numbers, latitude_of, longitude_of, number_or_none, no_nan,
}
use hass_geofence_journal.Storage.Tables.{
  Tables, runtime_row_ok, latitude_ok, longitude_ok, coordinates_check, accuracy_check, real,
  max_accuracy,
}
use hass_geofence_journal.Storage.RuntimeState.{
  runtime_row, decode, optional_coordinates, optional_accuracy,
}

latitude_finite : (x : Float) → latitude_ok x ≡ true → isfinite x ≡ true
unfolding of_ℕ neg_of_ℕ
latitude_finite (finite a) h = refl
latitude_finite inf h = cc
latitude_finite neg_inf h = cc
latitude_finite nan h = cc

longitude_finite : (x : Float) → longitude_ok x ≡ true → isfinite x ≡ true
unfolding of_ℕ neg_of_ℕ
longitude_finite (finite a) h = refl
longitude_finite inf h = cc
longitude_finite neg_inf h = cc
longitude_finite nan h = cc

-- A number is stored as itself.
real-number : (x : Float) → is_number x ≡ true → real (some x) ≡ some x
real-number (finite a) h = refl
real-number inf h = refl
real-number neg_inf h = refl
real-number nan h = cc

accuracy_facts :
    (x : Float)
    → is_number x ≡ true
    → accuracy_check (some x) ≡ true
    → (isfinite x ≡ true) × (lt_float x (of_ℕ 0) ≡ false)
unfolding of_ℕ max_accuracy
accuracy_facts (finite a) n h = (refl, ground arith)
accuracy_facts inf n h = cc
accuracy_facts neg_inf n h = cc
accuracy_facts nan n h = cc

coordinates_back :
    (c : Option Coordinates)
    → numbers c ≡ true
    → coordinates_check (real (latitude_of c)) (real (longitude_of c)) ≡ true
    → optional_coordinates (real (latitude_of c)) (real (longitude_of c)) ≡ ok c
unfolding optional_coordinates
coordinates_back none n h = refl
coordinates_back (some c) n h =
    let la = real-number c.latitude (ground arith) in
    let lo = real-number c.longitude (ground arith) in rw (la, lo) (go (rw (la, lo) at h))
  where
    go :
        coordinates_check (some c.latitude) (some c.longitude) ≡ true
        → optional_coordinates (some c.latitude) (some c.longitude) ≡ ok (some c)
    go h = ground (arith, latitude_finite c.latitude, longitude_finite c.longitude)

accuracy_back :
    (a : Option Float)
    → number_or_none a ≡ true
    → accuracy_check (real a) ≡ true
    → optional_accuracy (real a) ≡ ok a
unfolding optional_accuracy
accuracy_back none n h = refl
accuracy_back (some a) n h =
    rw (real-number a n) (ground (arith, accuracy_facts a n (rw (real-number a n) at h)))

-- A state without NaN whose row the schema's constraints accept is decoded from that row unchanged.
pub decode-runtime_row :
    (tables : Tables) (s : RuntimeStateRecord)
    → no_nan s ≡ true
    → runtime_row_ok tables (runtime_row s) ≡ true
    → decode (runtime_row s) ≡ ok s
unfolding decode runtime_row runtime_row_ok no_nan
decode-runtime_row tables s n h =
    ground (arith, coordinates_back s.latest_coordinates, accuracy_back s.latest_accuracy_m)
