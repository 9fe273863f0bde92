-- ===== src/Runtime/Fuel.antt =====
-- runtime/engine.py: how deep `_confirm_locked` and `_restore_pending_locked` call one another.
pub mod Methods
use hass_geofence_journal.Prelude.{
  ℕ, zero, suc, ◌+◌, ◌-◌, ◌≤◌, ◌≡◌, refl, ap, sym, ◌∙◌, Bool, true, false, not, Option, none, some,
  arith, ltb, leb, leb→le, ltb→lt, ◌==◌, if◌then◌else◌, inl, inr, Bool-cases, Option-cases,
}
use native.Mathlib.Nat.{le_trans}
use hass_geofence_journal.Errors.{ok, err}
use hass_geofence_journal.Exec.Rules.{>>=-ok}
use hass_geofence_journal.Models.{RuleDefinition}
use hass_geofence_journal.Storage.Records.{RuntimeStateRecord}
use hass_geofence_journal.Runtime.State.{Pending, pending}
use hass_geofence_journal.Runtime.Contracts.{RuntimeStorage, RuntimeDependencies}
use hass_geofence_journal.Runtime.Action.{Engine, Action, ◌>>=◌, ◌>>◌, done, schedule}
use hass_geofence_journal.Runtime.Engine.{
  utc_now, settle_due, restore_at, restore_pending, confirm_pending, confirm_at, confirm_locked,
  deadline_callback,
}

-- The clock of a call never goes back.
abbrev pub Monotone : RuntimeDependencies → Type 0
Monotone deps = (i j : ℕ) → i ≤ j → deps.utc_now i ≤ deps.utc_now j

module _ (store : RuntimeStorage) (rule : RuleDefinition) (deps : RuntimeDependencies) where
  open store use {Db}

  abbrev Confirm : Type 0
  Confirm = ℕ → Action Db (Unit {0})

  read_clock :
      (e : Engine Db)
      → utc_now store rule deps e
        ≡ (ok (deps.utc_now e.readings), record e { readings = e.readings + 1 })
  unfolding utc_now
  read_clock e = refl

  -- Once the deadline has passed, the inner calls do not matter.
  confirm_pending-due :
      (f g : Confirm) (s : RuntimeStateRecord) (n : ℕ) (found : Pending) (e : Engine Db)
      → ltb (deps.utc_now e.readings) found.deadline ≡ false
      → confirm_pending store rule deps f s n (some found) e
        ≡ confirm_pending store rule deps g s n (some found) e
  unfolding confirm_pending
  confirm_pending-due f g s n found e due =
      >>=-ok _ _ e _ _ (read_clock e) ∙ simp due refl ∙ sym (>>=-ok _ _ e _ _ (read_clock e))

  not_before : {a b : ℕ} → a ≤ b → ltb b a ≡ false
  not_before h = ground arith

  restore_branch :
      (f g : Confirm) (n deadline now : ℕ) (later : Engine Db)
      → (deadline ≤ now → f n later ≡ g n later)
      → (if leb deadline now then f n else schedule {Db = Db} (deadline - now) n) later
        ≡ (if leb deadline now then g n else schedule {Db = Db} (deadline - now) n) later
  restore_branch f g n deadline now later agree = elim (Bool-cases (leb deadline now)) [
    | inl due ↦ simp due (agree (leb→le deadline now due))
    | inr early ↦ simp early refl
  ]

  restore_at-agree :
      (f g : Confirm) (n deadline : ℕ) (e : Engine Db)
      → ((d : Engine Db) → d.state ≡ e.state → deadline ≤ deps.utc_now d.readings → f n d ≡ g n d)
      → Monotone deps
      → restore_at store rule deps f n (some deadline) e
        ≡ restore_at store rule deps g n (some deadline) e
  unfolding restore_at
  restore_at-agree f g n deadline e agree mono =
      let later : Engine Db = record e { readings = e.readings + 1 } in
      >>=-ok _ _ e _ _ (read_clock e)
      ∙ restore_branch f g n deadline (deps.utc_now e.readings) later
          (λ due. agree later refl (le_trans due (mono e.readings (e.readings + 1) (omega arith))))
      ∙ sym (>>=-ok _ _ e _ _ (read_clock e))

  pending-deadline :
      (s : RuntimeStateRecord) (found : Pending)
      → pending s ≡ some found
      → s.pending_deadline ≡ some found.deadline
  unfolding pending
  pending-deadline s found h = ground arith

  -- `_confirm_locked` with `inner` for the call that `_restore_pending_locked` makes.
  abbrev pub confirm_with : Confirm → Confirm
  confirm_with inner n e = confirm_at store rule deps inner n e.state e

  -- At a deadline that has passed, there is no inner call.
  confirm_with-due :
      (f g : Confirm) (n : ℕ) (e : Engine Db) (s : RuntimeStateRecord) (found : Pending)
      → e.state ≡ some s
      → pending s ≡ some found
      → ltb (deps.utc_now e.readings) found.deadline ≡ false
      → confirm_with f n e ≡ confirm_with g n e
  unfolding confirm_at
  confirm_with-due f g n e s found there ready due =
      simp there (elim (Bool-cases (s.pending_generation == n)) [
        | inl same ↦ rw (same, ready) (confirm_pending-due f g s n found e due)
        | inr other ↦ rw other refl
      ])

  -- At a pending state, an inner call sees the same state, at its deadline.
  confirm_pending-agree :
      (f g : Confirm) (n : ℕ) (e : Engine Db) (s : RuntimeStateRecord) (found : Pending)
      → e.state ≡ some s
      → pending s ≡ some found
      → Monotone deps
      → confirm_pending store rule deps (confirm_with f) s n (some found) e
        ≡ confirm_pending store rule deps (confirm_with g) s n (some found) e
  unfolding confirm_pending restore_pending
  confirm_pending-agree f g n e s found there ready mono =
      let later : Engine Db = record e { readings = e.readings + 1 } in
      elim (Bool-cases (ltb (deps.utc_now e.readings) found.deadline)) [
        | inr due ↦ confirm_pending-due (confirm_with f) (confirm_with g) s n found e due
        | inl early ↦
            >>=-ok _ _ e _ _ (read_clock e)
            ∙ simp early (
                rw (pending-deadline s found ready) (
                  restore_at-agree (confirm_with f) (confirm_with g) s.pending_generation
                    found.deadline later
                    (λ d same due.
                      confirm_with-due f g s.pending_generation d s found (same ∙ there) ready
                        (not_before due))
                    mono))
            ∙ sym (>>=-ok _ _ e _ _ (read_clock e))
      ]

  confirm_with-agree :
      (f g : Confirm) (n : ℕ) (e : Engine Db)
      → Monotone deps
      → confirm_with (confirm_with f) n e ≡ confirm_with (confirm_with g) n e
  unfolding confirm_at
  confirm_with-agree f g n e mono = elim (Option-cases e.state) [
    | inl absent ↦ simp absent refl
    | inr (s, there) ↦ simp there (elim (Bool-cases (s.pending_generation == n)) [
      | inr other ↦ rw other refl
      | inl same ↦ elim (Option-cases (pending s)) [
        | inl idle ↦ rw (same, idle) refl
        | inr (found, ready) ↦
            rw (same, ready) (confirm_pending-agree f g n e s found there ready mono)
      ]
    ])
  ]

  -- With a clock that does not go back during the call, a confirmation nests at most once: with fuel
  -- for two it is what it would be with any action at all in place of a third nested call.
  pub confirm_locked-nested :
      (inner : ℕ → Action Db (Unit {0})) (k n : ℕ) (e : Engine Db)
      → Monotone deps
      → confirm_locked store rule deps (suc (suc k)) n e ≡ confirm_with (confirm_with inner) n e
  unfolding confirm_locked
  confirm_locked-nested inner k n e mono =
      confirm_with-agree (confirm_locked store rule deps k) inner n e mono
