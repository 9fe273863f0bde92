-- ===== src/HaState/Decisions.antt =====
-- listener.py and ha_confirmation.py: what an evaluation of a Home Assistant state promises, at a
-- sample and at a deadline.
use hass_geofence_journal.Prelude.{
  ◌≡◌, String, true, false, Option, some, inl, inr, refl, arith, ap, sym, ◌∙◌, ◌⊎◌, Option-cases,
}
use hass_geofence_journal.Float.{Float, le_float, add_float}
use hass_geofence_journal.Models.{
  Coordinates, TrackerKind, PresenceState, inside, outside, is_presence,
}
use hass_geofence_journal.Location.{
  aware, unusable_state, valid_geometry, NormalizedObservation, ResolvedPlace,
  RawTrackerObservation, Outcome, IgnoredObservation, accepted, ignored,
  normalize_tracker_observation, resolve_place,
}
use hass_geofence_journal.Location.Checks.{not_before, normalize-IsNormal, resolve_place-valid}
use hass_geofence_journal.Geofence.{EvaluatedObservation, evaluate_geofence}
use hass_geofence_journal.Geofence.Hysteresis.{
  IsDecided, within, beyond, between, evaluate_geofence-IsEvaluated, evaluate_geofence-settled,
}
use hass_geofence_journal.Storage.Records.{RuntimeStateRecord}
use hass_geofence_journal.Storage.Resources.Active.{ConfiguredResources}
use hass_geofence_journal.Runtime.Coherence.{is_usable}
use hass_geofence_journal.Runtime.Samples.{sample-is_usable}
use hass_geofence_journal.HaState.{
  HaState, same_text, kind_value, get_zone, last_processed, confirmed_presence, thresholds_of,
  normalize_ha_tracker_state, evaluate_ha_tracker_state, async_evaluate,
}

-- A chain of outcomes that accepts has accepted its first.
accepted-then :
    {A B : Type 0} (m : Outcome A) (f : A → Outcome B) (b : B)
    → elim m [ ignored x ↦ ignored x | accepted a ↦ f a ] ≡ accepted b
    → (a : A) × (m ≡ accepted a) × (f a ≡ accepted b)
accepted-then (accepted a) f b h = (a, refl, h)
accepted-then (ignored x) f b h = cc

Outcome-cases :
    {A : Type 0} (m : Outcome A)
    → ((a : A) × (m ≡ accepted a)) ⊎ ((x : IgnoredObservation) × (m ≡ ignored x))
Outcome-cases (accepted a) = inl (a, refl)
Outcome-cases (ignored x) = inr (x, refl)

normalize-kind :
    (s : HaState) (kind : TrackerKind) (raw : RawTrackerObservation)
    → normalize_ha_tracker_state s kind ≡ accepted raw
    → (same_text s.domain (kind_value kind) ≡ true)
      × (raw.observed_at ≡ s.last_updated)
      × (raw.state ≡ some s.state)
unfolding normalize_ha_tracker_state
normalize-kind s kind raw h = (ground arith, ground arith, ground arith)

module _ (parse_float : String → Option Float) (meters_between : Coordinates → Coordinates → Float)
    (states : String → Option HaState) (resources : ConfiguredResources) where
  -- The steps that an accepted evaluation went through.
  pub record IsStaged (s : HaState) (r : Option RuntimeStateRecord) (o : EvaluatedObservation)
      : Type 0 where
    pub raw : RawTrackerObservation
    pub normal : NormalizedObservation
    pub place : ResolvedPlace
    pub kind : same_text s.domain (kind_value resources.tracker.kind) ≡ true
    pub at : raw.observed_at ≡ s.last_updated
    pub word : raw.state ≡ some s.state
    pub bounded : normalize_ha_tracker_state s resources.tracker.kind ≡ accepted raw
    pub normalized :
        normalize_tracker_observation parse_float raw (last_processed r) ≡ accepted normal
    pub resolved :
        resolve_place parse_float resources.place (get_zone states) normal.observed_at
        ≡ accepted place
    pub evaluated :
        evaluate_geofence meters_between normal place
          (confirmed_presence r)
          (thresholds_of resources)
        ≡ accepted o

  evaluate-IsStaged :
      (s : HaState) (r : Option RuntimeStateRecord) (o : EvaluatedObservation)
      → evaluate_ha_tracker_state parse_float meters_between states resources s r ≡ accepted o
      → IsStaged s r o
  unfolding evaluate_ha_tracker_state
  evaluate-IsStaged s r o h =
      let (raw, a, h1) =
        accepted-then (normalize_ha_tracker_state s resources.tracker.kind) _ o h in
      let (normal, b, h2) =
        accepted-then (normalize_tracker_observation parse_float raw (last_processed r)) _ o h1 in
      let (place, c, d) =
        accepted-then
          (resolve_place parse_float resources.place (get_zone states) normal.observed_at) _ o h2 in
      let (kind, at, word) = normalize-kind s resources.tracker.kind raw a in
      record {
        raw = raw;
        normal = normal;
        place = place;
        kind = kind;
        at = at;
        word = word;
        bounded = a;
        normalized = b;
        resolved = c;
        evaluated = d;
      }

  -- What an accepted evaluation promises of the state it was made from.
  pub record IsHaSample (s : HaState) (r : Option RuntimeStateRecord) (o : EvaluatedObservation)
      : Type 0 where
    pub kind : same_text s.domain (kind_value resources.tracker.kind) ≡ true
    pub word : unusable_state (some s.state) ≡ false
    pub at_utc : s.last_updated ≡ aware o.observed_at
    pub fresh : not_before (last_processed r) o.observed_at ≡ true
    pub plain : is_usable o ≡ true
    pub place : ResolvedPlace
    pub resolved :
        resolve_place parse_float resources.place (get_zone states) o.observed_at ≡ accepted place
    pub geometry : valid_geometry place.center.latitude place.center.longitude place.radius_m ≡ true
    pub measured : o.distance_m ≡ meters_between o.coordinates place.center
    pub decided :
        IsDecided place (thresholds_of resources) o.distance_m (confirmed_presence r) o.presence

  -- An evaluation that accepts a state of Home Assistant took it from an entity of the tracker's kind
  -- with a usable state, at its aware update time and not before the last processed instant; it is
  -- without NaN, the place was resolved at that instant with a valid geometry, and the distance to
  -- its center decided the presence by radius and margin.
  pub evaluate-IsHaSample :
      (s : HaState) (r : Option RuntimeStateRecord) (o : EvaluatedObservation)
      → evaluate_ha_tracker_state parse_float meters_between states resources s r ≡ accepted o
      → IsHaSample s r o
  evaluate-IsHaSample s r o h =
      let w = evaluate-IsStaged s r o h in
      let n = normalize-IsNormal parse_float w.raw (last_processed r) w.normal w.normalized in
      let e =
        evaluate_geofence-IsEvaluated meters_between w.normal w.place (thresholds_of resources)
          (confirmed_presence r) o w.evaluated in
      let (plain, fresh) =
        sample-is_usable parse_float meters_between w.raw (last_processed r) w.normal w.place
          (confirmed_presence r) (thresholds_of resources) o w.normalized w.evaluated in
      record {
        kind = w.kind;
        word = rw (← w.word) n.state;
        at_utc = sym w.at ∙ n.at_utc ∙ ap aware (sym e.same_instant);
        fresh = fresh;
        plain = plain;
        place = w.place;
        resolved = rw e.same_instant w.resolved;
        geometry =
            resolve_place-valid parse_float resources.place (get_zone states) w.normal.observed_at
              w.place w.resolved;
        measured = e.measured ∙ rw (← e.same_coordinates) refl;
        decided = e.decided;
      }

  -- The side of the place on which a distance lies.
  pub data IsBeyond (place : ResolvedPlace) (distance_m : Float) : PresenceState → Type 0 where
    near : le_float distance_m place.radius_m ≡ true → IsBeyond place distance_m inside
    far :
        le_float (add_float place.radius_m resources.rule.exit_margin_meters) distance_m ≡ true
        → IsBeyond place distance_m outside

  decided-IsBeyond :
      {place : ResolvedPlace} {distance_m : Float} {confirmed p : PresenceState}
      → IsDecided place (thresholds_of resources) distance_m confirmed p
      → is_presence p confirmed ≡ false
      → IsBeyond place distance_m p
  decided-IsBeyond (within n) h = near n
  decided-IsBeyond (beyond _ f) h = far f
  decided-IsBeyond {confirmed = confirmed} (between _ _) h = absurd (ground arith)

  pub evaluator-sample :
      (s : RuntimeStateRecord) (p : PresenceState)
      → async_evaluate parse_float meters_between states resources s ≡ some p
      → (tracker : HaState) × (o : EvaluatedObservation) × (states resources.tracker.entity_id
          ≡ some tracker)
        × (evaluate_ha_tracker_state parse_float meters_between states resources tracker (some s)
            ≡ accepted o)
        × (o.presence ≡ p)
  unfolding async_evaluate
  evaluator-sample s p h = elim (Option-cases (states resources.tracker.entity_id)) [
    | inl e ↦ absurd (ground arith)
    | inr (tracker, e) ↦
        elim (Outcome-cases (
          evaluate_ha_tracker_state parse_float meters_between states resources tracker (some s))) [
            | inl (o, k) ↦ (tracker, o, e, k, ground arith)
            | inr (x, k) ↦ absurd (ground arith)
          ]
  ]

  -- A re-evaluation at a deadline that answers with another presence than the stored one found the
  -- tracker in an accepted state, fresh against the last processed instant, and its distance lies
  -- within the radius for inside, and from radius and margin on for outside.
  pub async_evaluate-IsBeyond :
      (s : RuntimeStateRecord) (p : PresenceState)
      → async_evaluate parse_float meters_between states resources s ≡ some p
      → is_presence p s.presence_state ≡ false
      → (tracker : HaState) × (o : EvaluatedObservation) × (states resources.tracker.entity_id
          ≡ some tracker)
        × (q : IsHaSample tracker (some s) o) × IsBeyond q.place o.distance_m p
  async_evaluate-IsBeyond s p h differs =
      let (tracker, o, found, accepts, same) = evaluator-sample s p h in
      let q = evaluate-IsHaSample tracker (some s) o accepts in
      (tracker, o, found, q, decided-IsBeyond (rw (← same) q.decided) differs)

  -- The re-evaluation is settled: with its answer stored as the presence, and nothing else changed,
  -- it answers the same again.
  pub async_evaluate-settled :
      (s : RuntimeStateRecord) (p : PresenceState)
      → async_evaluate parse_float meters_between states resources s ≡ some p
      → async_evaluate parse_float meters_between states resources (record s { presence_state = p })
        ≡ some p
  unfolding async_evaluate evaluate_ha_tracker_state
  async_evaluate-settled s p h =
      let (tracker, o, found, accepts, same) = evaluator-sample s p h in
      let w = evaluate-IsStaged tracker (some s) o accepts in
      let again =
        evaluate_geofence-settled meters_between w.normal w.place (thresholds_of resources)
          s.presence_state o w.evaluated in
      rw (← same) (ground (arith, found, w.bounded, w.normalized, w.resolved, again))
