-- ===== src/Runtime/Coherence.antt =====
-- Which runtime states make sense, and that every state the engine builds does.
use hass_geofence_journal.Prelude.{
  ℕ, ◌≡◌, Bool, true, false, not, ◌&&◌, Option, none, some, arith, inl, inr, Option-cases,
}
use hass_geofence_journal.Errors.{ok}
use hass_geofence_journal.Models.{
  PresenceState, inside, outside, unknown, LocationEventType, LocationSource, is_presence,
  RuleDefinition,
}
use hass_geofence_journal.Geofence.{EvaluatedObservation}
use hass_geofence_journal.Storage.Records.{RuntimeStateRecord, ConfirmedTransition}
use hass_geofence_journal.Runtime.State.{
  baseline_state, accepted_state_update, confirmed_state, pending, Pending,
  build_confirmed_transition, transition_of,
}
use hass_geofence_journal.Storage.Records.{is_number, number_or_none, no_nan}
use hass_geofence_journal.Runtime.Engine.{pending_state, cancelled_state, recovered_state}

-- All of target, start and deadline, with a known target away from the presence; or none of them.
abbrev pub coherent_pending : PresenceState → Option PresenceState → Option ℕ → Option ℕ → Bool
coherent_pending presence none none none = true
coherent_pending presence (some target) (some started) (some deadline) =
    not (is_presence target unknown) && not (is_presence target presence)
coherent_pending _ _ _ _ = false

-- All of the last event's fields, or none of them.
abbrev pub coherent_event : Option ℕ → Option LocationEventType → Option ℕ → Bool
coherent_event none none none = true
coherent_event (some _) (some _) (some _) = true
coherent_event _ _ _ = false

pub record IsCoherent (rule : RuleDefinition) (s : RuntimeStateRecord) : Type 0 where
  pub key : s.rule_id ≡ rule.rule_id
  pub known : is_presence s.presence_state unknown ≡ false
  pub work :
      coherent_pending s.presence_state s.pending_transition s.pending_started_at s.pending_deadline
      ≡ true
  pub event : coherent_event s.last_event_id s.last_event_type s.last_event_at ≡ true
  pub plain : no_nan s ≡ true

-- What `evaluate_geofence` gives: a sample without NaN.
abbrev pub is_usable : EvaluatedObservation → Bool
is_usable o =
    is_number o.coordinates.latitude
    && is_number o.coordinates.longitude
    && number_or_none o.accuracy_m

module _ (rule : RuleDefinition) (o : EvaluatedObservation) (usable : is_usable o ≡ true) where
  pub baseline_state-IsCoherent :
      (now : ℕ) (keep : Bool)
      → is_presence o.presence unknown ≡ false
      → IsCoherent rule (baseline_state rule o now keep)
  unfolding baseline_state no_nan
  baseline_state-IsCoherent now keep h = ground arith

  pub accepted_state_update-IsCoherent :
      (s : RuntimeStateRecord) (now : ℕ) (keep clear : Bool)
      → IsCoherent rule s
      → IsCoherent rule (accepted_state_update s o now keep clear)
  unfolding accepted_state_update no_nan
  accepted_state_update-IsCoherent s now keep clear h = ground arith

  pub pending_state-IsCoherent :
      (s : RuntimeStateRecord) (now deadline : ℕ) (keep : Bool)
      → IsCoherent rule s
      → is_presence o.presence unknown ≡ false
      → is_presence o.presence s.presence_state ≡ false
      → IsCoherent rule (pending_state s o now deadline keep)
  unfolding pending_state no_nan
  pending_state-IsCoherent s now deadline keep h u d = ground arith

module _ (rule : RuleDefinition) (s : RuntimeStateRecord) (h : IsCoherent rule s) where
  pub cancelled_state-IsCoherent : (now : ℕ) → IsCoherent rule (cancelled_state s now)
  unfolding cancelled_state no_nan
  cancelled_state-IsCoherent now = ground arith

  pub recovered_state-IsCoherent : (now : ℕ) → IsCoherent rule (recovered_state s now)
  unfolding recovered_state no_nan
  recovered_state-IsCoherent now = ground arith

  pub pending-known :
      (found : Pending) → pending s ≡ some found → is_presence found.target unknown ≡ false
  unfolding pending
  pending-known found e = ground arith

  pub confirmed_state-IsCoherent :
      (target : PresenceState) (now : ℕ) (id : Option ℕ) (r : RuntimeStateRecord)
      → is_presence target unknown ≡ false
      → confirmed_state s target now id rule ≡ ok r
      → IsCoherent rule r
  unfolding confirmed_state no_nan
  confirmed_state-IsCoherent inside now none r k e = ground arith
  confirmed_state-IsCoherent inside now (some id) r k e = ground arith
  confirmed_state-IsCoherent outside now none r k e = ground arith
  confirmed_state-IsCoherent outside now (some id) r k e = ground arith
  confirmed_state-IsCoherent unknown now id r k e = cc

  transition_of-IsCoherent :
      (source : LocationSource) (found : Pending) (now generation id : ℕ) (r : RuntimeStateRecord)
      (t : ConfirmedTransition)
      → is_presence found.target unknown ≡ false
      → transition_of rule source s found now generation id ≡ ok (r, t)
      → IsCoherent rule r × (t.runtime_state ≡ some r)
  unfolding transition_of
  transition_of-IsCoherent source found now generation id r t known e =
      ground (arith, confirmed_state-IsCoherent found.target now (some id) r known)

  pub build-IsCoherent :
      (source : LocationSource) (now generation id : ℕ) (r : RuntimeStateRecord)
      (t : ConfirmedTransition)
      → build_confirmed_transition rule source s now generation id ≡ ok (r, t)
      → IsCoherent rule r × (t.runtime_state ≡ some r)
  unfolding build_confirmed_transition
  build-IsCoherent source now generation id r t e = elim (Option-cases (pending s)) [
    | inl absent ↦ ground arith
    | inr (found, present) ↦
        transition_of-IsCoherent source found now generation id r t (pending-known found present)
          (ground arith)
  ]
