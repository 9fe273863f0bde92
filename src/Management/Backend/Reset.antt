-- ===== src/Management/Backend/Reset.antt =====
-- management_backend.py: a reset of the database and of the downloads.
use mathlib.Core.Path.{subst}
use hass_geofence_journal.Storage.Sql.{query, fails, lift}
use hass_geofence_journal.Prelude.{
  ℕ, ◌≡◌, refl, ap, ◌∙◌, String, Bool, true, false, ◌⊎◌, inl, inr, Option, List, [], Bool-cases,
  sym,
}
use hass_geofence_journal.Errors.{Error, Result, ok, err}
use hass_geofence_journal.Float.{Float}
use hass_geofence_journal.Models.{Coordinates}
use hass_geofence_journal.Storage.Tables.{Tables}
use hass_geofence_journal.Storage.Sql.Laws.{Atomic}
use hass_geofence_journal.Storage.Reset.{ResetResult, reset_database}
use hass_geofence_journal.Storage.Reset.Emptied.{Resets, emptied, reset_database-IsAtomic}
use hass_geofence_journal.Storage.Resources.Active.{
  ConfiguredResources, links, sort_links, configured_resources, list_active_resources,
}
use hass_geofence_journal.Runtime.Contracts.{RuntimeDependencies}
use hass_geofence_journal.HaState.{HaState}
use hass_geofence_journal.Export.Registry.{FileName, Registry, discard_all}
use hass_geofence_journal.Export.Registry.Emptied.{is_clean, IsStuck, Empties, discard_all-Empties}
use hass_geofence_journal.Manager.{Manager, is_ok, at_rest, pause_and_drain}
use hass_geofence_journal.Manager.Kept.{IsAdded}
use hass_geofence_journal.Manager.Observing.{
  IsSettled, ReadsNone, active_in, pause_and_drain-IsSettled, pause_and_drain-db,
}
use hass_geofence_journal.Management.Backend.{
  Backend, managed, raised_by, then_discard, paused, async_reset_database,
}

-- What a reset leaves of the database and of the downloads, in the end.
pub data IsReset (held : FileName → Bool) (b : Backend)
    : Result ResetResult × Backend → Type 0 where
  cleared :
      {p : Result ResetResult × Backend}
      → p.1.manager.generation.db ≡ emptied b.manager.generation.db
      → p.1.exports.artifacts ≡ []
      → is_clean p.1.exports.directory ≡ true
      → IsReset held b p
  undiscarded :
      {p : Result ResetResult × Backend}
      → p.1.manager.generation.db ≡ emptied b.manager.generation.db
      → IsStuck held
      → is_ok p.0 ≡ false
      → IsReset held b p
  kept :
      {p : Result ResetResult × Backend}
      → IsAdded b.manager.generation.db.events p.1.manager.generation.db.events
      → p.1.exports ≡ b.exports
      → is_ok p.0 ≡ false
      → IsReset held b p

raised_by-is_ok : {A : Type 0} (x : Error) (r : Result A) → is_ok (raised_by (err x) r) ≡ false
raised_by-is_ok x (ok a) = refl
raised_by-is_ok x (err y) = refl

raised_still :
    {A : Type 0} (d : Result (Unit {0})) (r : Result A)
    → is_ok r ≡ false
    → is_ok (raised_by d r) ≡ false
raised_still (ok _) r h = h
raised_still (err x) r h = raised_by-is_ok x r

discarded-IsReset :
    (held : FileName → Bool) (b : Backend) (q : Result ResetResult × Backend)
    (d : Result (Unit {0}) × Registry)
    → q.1.manager.generation.db ≡ emptied b.manager.generation.db
    → Empties held d
    → IsReset held b (raised_by d.0 q.0, record q.1 { exports = d.1 })
discarded-IsReset held b q (ok _, exports) db h = cleared db h.0 h.1
discarded-IsReset held b q (err x, exports) db h = undiscarded db h (raised_by-is_ok x q.0)

module _ (faults : List Bool) (parse_float : String → Option Float)
    (meters_between : Coordinates → Coordinates → Float) (fuel : ℕ)
    (deps : ConfiguredResources → RuntimeDependencies) (states : String → Option HaState) where
  active_in-emptied :
      (d : Tables)
      → ReadsNone (active_in faults parse_float meters_between fuel deps states (emptied d))
  unfolding list_active_resources links sort_links configured_resources query
      hass_geofence_journal.Exec.◌>>=◌ lift
  active_in-emptied d = elim (Bool-cases (fails faults)) [
    | inl failing ↦ simp failing tt
    | inr running ↦ simp running tt
  ]

  then_discard-IsSettled :
      (held : FileName → Bool) (b : Backend) (r : Result ResetResult)
      (q : Result ResetResult × Manager) {read : Result (List ConfiguredResources)}
      → IsSettled read q
      → let p = then_discard held r b.exports (managed b q) in IsSettled read (p.0, p.1.manager)
  unfolding then_discard
  then_discard-IsSettled held b (err x) q h = record {
    resumed = h.resumed;
    observing = h.observing;
  }
  then_discard-IsSettled held b (ok _) q h = record {
    resumed = h.resumed;
    observing = elim h.observing [
      | inl observing ↦ inl observing
      | inr (empty, raised) ↦ inr (empty, raised_still (discard_all held b.exports).0 q.0 raised)
    ];
  }

  then_discard-IsReset :
      (held : FileName → Bool) (b : Backend) (r : Result ResetResult) (new : Tables)
      (q : Result ResetResult × Manager)
      → Atomic Resets b.manager.generation.db r new
      → (ReadsNone (active_in faults parse_float meters_between fuel deps states new)
          → q.1.generation.db ≡ new)
      → (q.0 ≡ r) ⊎ (is_ok q.0 ≡ false)
      → IsAdded new.events q.1.generation.db.events
      → IsReset held b (then_discard held r b.exports (managed b q))
  unfolding then_discard
  then_discard-IsReset held b (ok res) new q h final ended added =
      let nothing =
        subst (λ t. ReadsNone (active_in faults parse_float meters_between fuel deps states t))
          (sym h.1) (active_in-emptied b.manager.generation.db) in
      discarded-IsReset held b (managed b q) (discard_all held b.exports) (final nothing ∙ h.1)
        (discard_all-Empties held b.exports)
  then_discard-IsReset held b (err x) new q h final (inl same) added =
      kept (subst (λ t. IsAdded t.events q.1.generation.db.events) h added) refl (ap is_ok same)
  then_discard-IsReset held b (err x) new q h final (inr raised) added =
      kept (subst (λ t. IsAdded t.events q.1.generation.db.events) h added) refl raised

  -- A reset, whatever the phrase and the stored versions and whichever statements fail, leaves a
  -- manager with emptied tables, no download registered and no file of an export; or it raises. Then
  -- the tables are emptied and some file of an export cannot be removed, or the recorded events are
  -- still there in front and the downloads are as they were. In all cases the manager is not paused
  -- afterwards, and it observes the rules that are active after the reset, or its part has raised.
  pub async_reset_database-IsReset :
      (held : FileName → Bool) (confirmation : String) (b : Backend)
      → let (_, c) =
          reset_database confirmation
            (at_rest faults parse_float meters_between fuel deps states b.manager.generation.db) in
        let p =
          async_reset_database faults parse_float meters_between fuel deps states held confirmation
            b in
        IsReset held b p
        × IsSettled
            (active_in faults parse_float meters_between fuel deps states c.tables)
            (p.0, p.1.manager)
  unfolding async_reset_database paused
  async_reset_database-IsReset held confirmation b =
      let reset = reset_database confirmation in
      let start =
        at_rest faults parse_float meters_between fuel deps states b.manager.generation.db in
      let (settled, ended, added) =
        pause_and_drain-IsSettled faults parse_float meters_between fuel deps states reset
          b.manager in
      let (r, c) = reset start in
      let q = pause_and_drain faults parse_float meters_between fuel deps states reset b.manager in
      (
        then_discard-IsReset held b r c.tables q
            (reset_database-IsAtomic confirmation start refl).whole
            (pause_and_drain-db faults parse_float meters_between fuel deps states reset b.manager)
            ended added,
        then_discard-IsSettled held b r q settled,
      )
