-- ===== src/HaState.antt =====
-- custom_components/geofence_journal/listener.py, up to the listener itself, and ha_confirmation.py:
-- one state of Home Assistant's state machine, evaluated against a rule's resources.
pub mod Decisions
use hass_geofence_journal.Prelude.{
  ℕ, String, Bool, not, Option, none, some, List, [], ◌∷◌, if◌then◌else◌,
}
use hass_geofence_journal.Float.{Float}
use hass_geofence_journal.Text.{codes, eq_codes}
use hass_geofence_journal.Models.{
  TrackerKind, person, device_tracker, PresenceState, unknown, Coordinates,
}
use hass_geofence_journal.Location.{
  Datetime, RawNumber, number, text, missing, IgnoreReason, RawTrackerObservation, ZoneSnapshot,
  Outcome, accepted, ignored, normalize_tracker_observation, resolve_place,
}
use hass_geofence_journal.Geofence.{EvaluatedObservation, EvaluationThresholds, evaluate_geofence}
use hass_geofence_journal.Storage.Records.{RuntimeStateRecord}
use hass_geofence_journal.Storage.Resources.Active.{ConfiguredResources}

-- The value of an attribute: a number but no bool, a text, None, or anything else.
pub data Attribute : Type 0 where
  real : Float → Attribute
  word : String → Attribute
  nothing : Attribute
  other : Attribute

-- What the program reads of a `State`.
pub record HaState : Type 0 where
  pub entity_id : String
  pub domain : String
  pub state : String
  pub last_updated : Datetime
  pub attributes : List (String × Attribute)

abbrev pub same_text : String → String → Bool
same_text a b = eq_codes (codes a) (codes b)

-- `attributes.get(name)`
unfoldable pub get : String → List (String × Attribute) → Attribute
get name [] = nothing
get name ((key, value) ∷ attributes) = if same_text key name then value else get name attributes

-- `_raw_number`: the strict adapter of `float | str | None`; what it refuses is None.
unfoldable pub raw_number : HaState → String → RawNumber
unfolding get
raw_number s attribute = elim (get attribute s.attributes) [
  | real x ↦ number x
  | word x ↦ text x
  | nothing ↦ missing
  | other ↦ missing
]

-- `TrackerKind.value`
abbrev pub kind_value : TrackerKind → String
kind_value person = "person"
kind_value device_tracker = "device_tracker"

-- `states.get` is the argument `states`.
unfoldable pub get_zone : (String → Option HaState) → String → Option ZoneSnapshot
unfolding raw_number
get_zone states entity_id = elim (states entity_id) [
  | none ↦ none
  | some s ↦ some (record {
    latitude = raw_number s "latitude";
    longitude = raw_number s "longitude";
    radius_m = raw_number s "radius";
  })
]

unfoldable pub normalize_ha_tracker_state : HaState → TrackerKind → Outcome RawTrackerObservation
unfolding raw_number
normalize_ha_tracker_state s expected_kind =
    if not (same_text s.domain (kind_value expected_kind))
    then ignored (record { reason = IgnoreReason.invalid_state; observed_at = s.last_updated })
    else accepted (record {
      observed_at = s.last_updated;
      latitude = raw_number s "latitude";
      longitude = raw_number s "longitude";
      accuracy_m = raw_number s "gps_accuracy";
      state = some s.state;
    })

abbrev pub last_processed : Option RuntimeStateRecord → Option ℕ
last_processed none = none
last_processed (some s) = s.last_processed_at

abbrev pub confirmed_presence : Option RuntimeStateRecord → PresenceState
confirmed_presence none = unknown
confirmed_presence (some s) = s.presence_state

abbrev pub thresholds_of : ConfiguredResources → EvaluationThresholds
thresholds_of resources = record {
  exit_margin_m = resources.rule.exit_margin_meters;
  max_accuracy_m = resources.rule.max_gps_accuracy_meters;
}

module _ (parse_float : String → Option Float) (meters_between : Coordinates → Coordinates → Float)
    (states : String → Option HaState) (resources : ConfiguredResources) where
  unfoldable pub evaluate_ha_tracker_state :
      HaState → Option RuntimeStateRecord → Outcome EvaluatedObservation
  unfolding normalize_ha_tracker_state
  evaluate_ha_tracker_state s runtime_state =
      elim (normalize_ha_tracker_state s resources.tracker.kind) [
        | ignored x ↦ ignored x
        | accepted boundary ↦
            elim (normalize_tracker_observation parse_float boundary
              (last_processed runtime_state)) [
                | ignored x ↦ ignored x
                | accepted normalized ↦
                    elim (resolve_place parse_float resources.place (get_zone states)
                      normalized.observed_at) [
                        | ignored x ↦ ignored x
                        | accepted resolved ↦
                            evaluate_geofence meters_between normalized resolved
                              (confirmed_presence runtime_state) (thresholds_of resources)
                      ]
              ]
      ]

  -- `HomeAssistantConfirmationEvaluator.async_evaluate`
  unfoldable pub async_evaluate : RuntimeStateRecord → Option PresenceState
  unfolding evaluate_ha_tracker_state
  async_evaluate s = elim (states resources.tracker.entity_id) [
    | none ↦ none
    | some tracker ↦ elim (evaluate_ha_tracker_state tracker (some s)) [
      | ignored _ ↦ none
      | accepted evaluated ↦ some evaluated.presence
    ]
  ]
