-- ===== src/Settings/Parsed.antt =====
-- settings.py: the parsed settings are those of the mapping, and a refusal names a field that is bad.
use hass_geofence_journal.Prelude.{
  Option, none, some, ◌≡◌, refl, Bool, true, false, not, ◌&&◌, arith,
}
use hass_geofence_journal.Prelude.Int.{ℤ, pos, negsuc}
use hass_geofence_journal.Float.{Float, finite, inf, neg_inf, nan, le_float, lt_float, of_ℕ}
use hass_geofence_journal.Settings.{
  ConfigValue, bool, int, float, str, other, Field, conf_store_coordinates,
  conf_enter_confirmation_seconds, conf_exit_confirmation_seconds, conf_cooldown_seconds,
  conf_exit_margin_meters, conf_database_path, Settings, Parse, valid, invalid, overflow, converted,
  ◌>>=◌, Mapping, read_bool, read_int, read_float, read_str, is_negative, is_blank, post_init,
  from_mapping,
}

abbrev good_seconds : ConfigValue → Bool
good_seconds (int n) = not (is_negative n)
good_seconds _ = false

-- At least zero; NaN is let through, since it is not less than zero either.
abbrev zero_or_more : Float → Bool
zero_or_more nan = true
zero_or_more x = le_float (of_ℕ 0) x

negative : (x : Float) → lt_float x (of_ℕ 0) ≡ not (zero_or_more x)
unfolding of_ℕ
negative nan = refl
negative inf = refl
negative neg_inf = refl
negative (finite (pos n)) = ground arith
negative (finite (negsuc n)) = ground arith

abbrev good_margin : (ℤ → Option Float) → ConfigValue → Bool
good_margin float_of (int n) = elim (float_of n) [ none ↦ true | some x ↦ zero_or_more x ]
good_margin float_of (float x) = zero_or_more x
good_margin float_of _ = false

-- The values that each field may have.
abbrev pub is_good : (ℤ → Option Float) → Field → ConfigValue → Bool
is_good float_of conf_store_coordinates (bool b) = true
is_good float_of conf_store_coordinates _ = false
is_good float_of conf_enter_confirmation_seconds v = good_seconds v
is_good float_of conf_exit_confirmation_seconds v = good_seconds v
is_good float_of conf_cooldown_seconds v = good_seconds v
is_good float_of conf_exit_margin_meters v = good_margin float_of v
is_good float_of conf_database_path (str s) = not (is_blank s)
is_good float_of conf_database_path _ = false

abbrev pub all_good : (ℤ → Option Float) → Mapping → Bool
all_good float_of raw =
    is_good float_of conf_store_coordinates (raw conf_store_coordinates)
    && is_good float_of conf_enter_confirmation_seconds (raw conf_enter_confirmation_seconds)
    && is_good float_of conf_exit_confirmation_seconds (raw conf_exit_confirmation_seconds)
    && is_good float_of conf_cooldown_seconds (raw conf_cooldown_seconds)
    && is_good float_of conf_exit_margin_meters (raw conf_exit_margin_meters)
    && is_good float_of conf_database_path (raw conf_database_path)

-- The settings are the values of the mapping, an int margin as its float.
pub record IsRead (float_of : ℤ → Option Float) (raw : Mapping) (s : Settings) : Type 0 where
  pub store : raw conf_store_coordinates ≡ bool s.store_coordinates
  pub enter : raw conf_enter_confirmation_seconds ≡ int s.enter_confirmation_seconds
  pub leave : raw conf_exit_confirmation_seconds ≡ int s.exit_confirmation_seconds
  pub cooldown : raw conf_cooldown_seconds ≡ int s.cooldown_seconds
  pub margin :
      read_float float_of conf_exit_margin_meters (raw conf_exit_margin_meters)
      ≡ valid s.exit_margin_meters
  pub path : raw conf_database_path ≡ str s.database_path
  pub good : all_good float_of raw ≡ true

-- What an answer of the parser says of the mapping.
abbrev pub Answers : (ℤ → Option Float) → Mapping → Parse Settings → Type 0
Answers float_of raw (valid s) = IsRead float_of raw s
Answers float_of raw (invalid field) = is_good float_of field (raw field) ≡ false
Answers float_of raw overflow =
    (n : ℤ) × (raw conf_exit_margin_meters ≡ int n) × (float_of n ≡ none)

module _ (float_of : ℤ → Option Float) (raw : Mapping) where
  valid-IsRead : (s : Settings) → from_mapping float_of raw ≡ valid s → IsRead float_of raw s
  unfolding from_mapping ◌>>=◌ read_bool read_int read_float read_str post_init converted
  valid-IsRead s h = record {
    store = ground arith;
    enter = ground arith;
    leave = ground arith;
    cooldown = ground arith;
    margin = ground arith;
    path = ground arith;
    good = grind (arith, negative);
  }

  invalid-bad :
      (field : Field)
      → from_mapping float_of raw ≡ invalid field
      → is_good float_of field (raw field) ≡ false
  unfolding from_mapping ◌>>=◌ read_bool read_int read_float read_str post_init converted
  invalid-bad field h = grind (arith, negative)

  converted-overflow : (x : Option Float) → converted x ≡ overflow → x ≡ none
  unfolding converted
  converted-overflow none h = refl
  converted-overflow (some x) h = absurd (ground arith)

  read_float-overflow :
      (v : ConfigValue)
      → read_float float_of conf_exit_margin_meters v ≡ overflow
      → (n : ℤ) × (v ≡ int n) × (float_of n ≡ none)
  unfolding read_float
  read_float-overflow (bool b) h = absurd (ground arith)
  read_float-overflow (int n) h = (n, refl, converted-overflow (float_of n) h)
  read_float-overflow (float x) h = absurd (ground arith)
  read_float-overflow (str s) h = absurd (ground arith)
  read_float-overflow other h = absurd (ground arith)

  overflowing :
      from_mapping float_of raw ≡ overflow
      → (n : ℤ) × (raw conf_exit_margin_meters ≡ int n) × (float_of n ≡ none)
  unfolding from_mapping ◌>>=◌ read_bool read_int read_float read_str post_init converted
  overflowing h = read_float-overflow (raw conf_exit_margin_meters) (ground arith)

  Answers-from_mapping :
      (p : Parse Settings) → from_mapping float_of raw ≡ p → Answers float_of raw p
  Answers-from_mapping (valid s) h = valid-IsRead s h
  Answers-from_mapping (invalid field) h = invalid-bad field h
  Answers-from_mapping overflow h = overflowing h

  -- Parsing gives settings only if every field of the mapping has its type, whole seconds that are not
  -- negative, a margin that is at least zero or NaN, and a path that is not blank, a bool not standing
  -- for a number; the settings are then the values of the mapping. Otherwise it names a field that is
  -- bad, or it raises OverflowError, for an int margin beyond the floats.
  pub from_mapping-Answers : Answers float_of raw (from_mapping float_of raw)
  from_mapping-Answers = Answers-from_mapping (from_mapping float_of raw) refl
