-- ===== src/Settings.antt =====
-- custom_components/geofence_journal/settings.py: the settings of the config entry, parsed from its
-- mapping.
pub mod Parsed
use hass_geofence_journal.Prelude.{Option, none, some, String, Bool, ◌∷◌, List, [], if◌then◌else◌}
use hass_geofence_journal.Prelude.Int.{ℤ, pos, negsuc}
use hass_geofence_journal.Float.{Float, lt_float, of_ℕ}
use hass_geofence_journal.Text.{codes, strip}

-- A value of the mapping; an absent key is None.
pub data ConfigValue : Type 0 where
  bool : Bool → ConfigValue
  int : ℤ → ConfigValue
  float : Float → ConfigValue
  str : String → ConfigValue
  other : ConfigValue

-- The keys of const.py.
pub data Field : Type 0 where
  conf_store_coordinates conf_enter_confirmation_seconds conf_exit_confirmation_seconds : Field
  conf_cooldown_seconds conf_exit_margin_meters conf_database_path : Field

pub record Settings : Type 0 where
  pub store_coordinates : Bool
  pub enter_confirmation_seconds : ℤ
  pub exit_confirmation_seconds : ℤ
  pub cooldown_seconds : ℤ
  pub exit_margin_meters : Float
  pub database_path : String

-- A value, SettingsFieldError with its field, or OverflowError.
pub data Parse (A : Type 0) : Type 0 where
  valid : A → Parse A
  invalid : Field → Parse A
  overflow : Parse A

infixl 5 ◌>>=◌
unfoldable pub ◌>>=◌ : {A B : Type 0} → Parse A → (A → Parse B) → Parse B
valid a >>= f = f a
invalid field >>= f = invalid field
overflow >>= f = overflow

abbrev pub Mapping : Type 0
Mapping = Field → ConfigValue

unfoldable pub read_bool : Field → ConfigValue → Parse Bool
read_bool field (bool b) = valid b
read_bool field _ = invalid field

-- A bool is an int in Python, and refused here.
unfoldable pub read_int : Field → ConfigValue → Parse ℤ
read_int field (int n) = valid n
read_int field _ = invalid field

-- `float(value)`, where that was an answer.
unfoldable pub converted : Option Float → Parse Float
converted none = overflow
converted (some x) = valid x

-- `float_of` is `float` of an int, which raises OverflowError past the range of binary64.
module _ (float_of : ℤ → Option Float) where
  unfoldable pub read_float : Field → ConfigValue → Parse Float
  read_float field (int n) = converted (float_of n)
  read_float field (float x) = valid x
  read_float field _ = invalid field

unfoldable pub read_str : Field → ConfigValue → Parse String
read_str field (str s) = valid s
read_str field _ = invalid field

-- `value < 0`
abbrev pub is_negative : ℤ → Bool
is_negative (pos n) = Bool.false
is_negative (negsuc n) = Bool.true

abbrev pub is_blank : String → Bool
is_blank s = elim (strip (codes s)) [ [] ↦ Bool.true | _ ∷ _ ↦ Bool.false ]

-- `__post_init__`
unfoldable pub post_init : Settings → Parse Settings
post_init s =
    if is_negative s.enter_confirmation_seconds
    then invalid conf_enter_confirmation_seconds
    else if is_negative s.exit_confirmation_seconds
    then invalid conf_exit_confirmation_seconds
    else if is_negative s.cooldown_seconds
    then invalid conf_cooldown_seconds
    else if lt_float s.exit_margin_meters (of_ℕ 0)
    then invalid conf_exit_margin_meters
    else if is_blank s.database_path
    then invalid conf_database_path
    else valid s

unfoldable pub from_mapping : (ℤ → Option Float) → Mapping → Parse Settings
from_mapping float_of raw = do
  store_coordinates ← read_bool conf_store_coordinates (raw conf_store_coordinates)
  enter ← read_int conf_enter_confirmation_seconds (raw conf_enter_confirmation_seconds)
  leave ← read_int conf_exit_confirmation_seconds (raw conf_exit_confirmation_seconds)
  cooldown ← read_int conf_cooldown_seconds (raw conf_cooldown_seconds)
  margin ← read_float float_of conf_exit_margin_meters (raw conf_exit_margin_meters)
  path ← read_str conf_database_path (raw conf_database_path)
  post_init (record {
    store_coordinates = store_coordinates;
    enter_confirmation_seconds = enter;
    exit_confirmation_seconds = leave;
    cooldown_seconds = cooldown;
    exit_margin_meters = margin;
    database_path = path;
  })
