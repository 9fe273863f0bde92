-- ===== src/Runtime/Soundness.antt =====
-- Every method keeps the engine's state and the rule's row coherent, whether it returns or raises.
pub mod Confirm
pub mod Methods
use hass_geofence_journal.Prelude.{
  ℕ, zero, suc, ◌≡◌, refl, Bool, true, false, Option, none, some, arith, ◌==◌, if◌then◌else◌, inl,
  inr, Bool-cases, ◌-◌, not,
}
use hass_geofence_journal.Errors.{Error, ok, err, runtime_invariant, Result-cases}
use hass_geofence_journal.Models.{PresenceState, unknown, is_presence, RuleDefinition}
use hass_geofence_journal.Location.{Outcome, accepted, ignored}
use hass_geofence_journal.Geofence.{EvaluatedObservation}
use hass_geofence_journal.Storage.Records.{
  RuntimeStateRecord, TransitionResult, ConfirmedTransition,
}
use hass_geofence_journal.Runtime.State.{
  direction_cooldown, Pending, pending, confirmed_state, build_confirmed_transition,
  accepted_state_update,
}
use hass_geofence_journal.Runtime.Contracts.{RuntimeStorage, RuntimeDependencies}
use hass_geofence_journal.Runtime.Action.{
  Engine, Action, raise, lift, ◌>>=◌, ◌>>◌, done, put_state, put_accepting, forget_scheduled,
  cancel_scheduled, schedule, on_transition,
}
use hass_geofence_journal.Exec.Rules.{
  Leads, Keeps, Leads-lift_bind, Leads-bind, Leads-if, Keeps-bind, Keeps-lift_bind,
}
use hass_geofence_journal.Runtime.Engine.{
  in_cooldown, utc_now, next_id, load, save, delete, commit, replace_state, cancelled_state,
  pending_state, restore_at, restore_pending, adopt, record_transition, settle_agreed, settle_due,
  confirm_pending, confirm_at, confirm_locked, begin_pending, accept_stable, accept_pending,
  accept_baseline, accept_at, accept_locked, async_observe, deadline_callback, recover_row,
  async_recover, async_deactivate, async_suspend,
}
use hass_geofence_journal.Runtime.Coherence.{
  IsCoherent, is_usable, baseline_state-IsCoherent, accepted_state_update-IsCoherent,
  pending_state-IsCoherent, cancelled_state-IsCoherent, recovered_state-IsCoherent, pending-known,
  confirmed_state-IsCoherent, build-IsCoherent,
}

module _ (store : RuntimeStorage) (rule : RuleDefinition) where
  open store use {Db}

  abbrev pub AllCoherent : Option RuntimeStateRecord → Type 0
  AllCoherent none = Unit
  AllCoherent (some s) = IsCoherent rule s

  pub record IsSound (e : Engine Db) : Type 0 where
    pub memory : AllCoherent e.state
    pub stored : AllCoherent (store.row e.db rule.rule_id)

module _ (store : RuntimeStorage) (rule : RuleDefinition) (deps : RuntimeDependencies) where
  open store use {Db}

  abbrev pub Sound : Engine Db → Type 0
  Sound = IsSound store rule

  pub done-Sound : Keeps Sound done
  unfolding done
  done-Sound = record { at = λ e h. h }

  pub raise-Sound : {A : Type 0} (x : Error) → Keeps Sound (raise {A = A} x)
  unfolding raise
  raise-Sound x = record { at = λ e h. h }

  pub forget_scheduled-Sound : Keeps Sound forget_scheduled
  unfolding forget_scheduled
  forget_scheduled-Sound = record { at = λ e h. record { memory = h.memory; stored = h.stored } }

  pub cancel_scheduled-Sound : Keeps Sound cancel_scheduled
  unfolding cancel_scheduled
  cancel_scheduled-Sound = record { at = λ e h. ground arith }

  pub schedule-Sound : (delay generation : ℕ) → Keeps Sound (schedule delay generation)
  unfolding schedule
  schedule-Sound delay generation = record {
    at = λ e h. record { memory = h.memory; stored = h.stored };
  }

  pub utc_now-Sound : Keeps Sound (utc_now store rule deps)
  unfolding utc_now
  utc_now-Sound = record { at = λ e h. record { memory = h.memory; stored = h.stored } }

  pub put_accepting-Sound : (b : Bool) → Keeps Sound (put_accepting b)
  unfolding put_accepting
  put_accepting-Sound b = record { at = λ e h. record { memory = h.memory; stored = h.stored } }

  pub on_transition-Sound :
      (r : TransitionResult) (s : RuntimeStateRecord) → Keeps Sound (on_transition r s)
  unfolding on_transition
  on_transition-Sound r s = record { at = λ e h. record { memory = h.memory; stored = h.stored } }

  pub put_state-Sound :
      (s : Option RuntimeStateRecord) → AllCoherent store rule s → Keeps Sound (put_state s)
  unfolding put_state
  put_state-Sound s c = record { at = λ e h. record { memory = c; stored = h.stored } }

  pub AllCoherent-if :
      (b : Bool) (s o : Option RuntimeStateRecord)
      → AllCoherent store rule s
      → AllCoherent store rule o
      → AllCoherent store rule (if b then s else o)
  AllCoherent-if true s o hs ho = hs
  AllCoherent-if false s o hs ho = ho

  pub save-Sound :
      (s : RuntimeStateRecord) → IsCoherent rule s → Keeps Sound (save store rule deps s)
  unfolding save
  save-Sound s c = record {
    at = λ e h. elim (Result-cases (store.save_runtime_state e.db s)) [
      | inl (d, saved) ↦
          rw (saved, save)
            (record {
              memory = h.memory;
              stored =
                  rw (store.row-save e.db d s rule.rule_id saved c.plain)
                    (AllCoherent-if (s.rule_id == rule.rule_id) (some s) _ c h.stored);
            })
      | inr (x, failed) ↦ rw (failed, save) h
    ];
  }

  pub delete-Sound : Keeps Sound (delete store rule deps)
  unfolding delete
  delete-Sound = record {
    at = λ e h. elim (Result-cases (store.delete_runtime_state e.db rule.rule_id)) [
      | inl (d, deleted) ↦
          rw (deleted, delete)
            (record {
              memory = h.memory;
              stored =
                  rw (store.row-delete e.db d rule.rule_id rule.rule_id deleted)
                    (AllCoherent-if (rule.rule_id == rule.rule_id) none _ tt h.stored);
            })
      | inr (x, failed) ↦ rw (failed, delete) h
    ];
  }

  pub replace_state-Sound :
      (s : RuntimeStateRecord) → IsCoherent rule s → Keeps Sound (replace_state store rule deps s)
  unfolding replace_state
  replace_state-Sound s c =
      Leads-bind (put_state (some s)) (λ _. save store rule deps s) (λ e h. h)
        (put_state-Sound (some s) c) (λ _. save-Sound s c)

  pub load-Sound :
      {A : Type 0} (f : Option RuntimeStateRecord → Action Db A)
      → ((x : Option RuntimeStateRecord) → AllCoherent store rule x → Keeps Sound (f x))
      → Keeps Sound (load store rule deps >>= f)
  unfolding load ◌>>=◌
  load-Sound f step = record {
    at = λ e h. elim (Result-cases (store.runtime_state e.db rule.rule_id)) [
      | inl (x, loaded) ↦
          rw loaded
            ((step x (rw (store.row-runtime_state e.db rule.rule_id x loaded) h.stored)).at e h)
      | inr (x, failed) ↦ rw (failed, load) h
    ];
  }

  pub commit-Sound :
      (t : ConfirmedTransition) (s : RuntimeStateRecord)
      → IsCoherent rule s
      → t.runtime_state ≡ some s
      → Keeps Sound (commit store rule deps t)
  unfolding commit
  commit-Sound t s c carried = record {
    at = λ e h. elim (Result-cases (store.confirm_transition e.db t)) [
      | inr (x, failed) ↦ rw (failed, commit) h
      | inl ((result, d), committed) ↦
          rw (committed, commit)
            (record {
              memory = h.memory;
              stored = elim (Bool-cases result.created) [
                | inl created ↦
                    rw
                      (store.row-confirm e.db d t s result rule.rule_id committed created carried
                        c.plain)
                      (AllCoherent-if (s.rule_id == rule.rule_id) (some s) _ c h.stored)
                | inr known ↦ rw (store.confirm_duplicate e.db d t result committed known) h.stored
              ];
            })
    ];
  }

  pub next_id-Sound : Keeps Sound (next_id store rule deps)
  unfolding next_id
  next_id-Sound = record { at = λ e h. record { memory = h.memory; stored = h.stored } }
