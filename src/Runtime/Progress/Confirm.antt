-- ===== src/Runtime/Progress/Confirm.antt =====
-- Only the end of a confirmation records an event, and it is due there.
use mathlib.Core.Path.{subst}
use hass_geofence_journal.Prelude.{
  ℕ, zero, suc, sym, ◌-◌, ◌≤◌, ◌≡◌, refl, ap, ◌∙◌, Bool, true, false, not, Option, none, some, [],
  ◌∷◌, ◌++◌, inl, inr, arith, ltb, leb, ◌==◌, if◌then◌else◌,
}
use hass_geofence_journal.Errors.{Error, ok, err, Result-cases}
use hass_geofence_journal.Models.{
  LocationEventType, PresenceState, inside, outside, unknown, is_presence, is_presence→eq,
  RuleDefinition, LocationSource,
}
use hass_geofence_journal.Storage.Records.{
  RuntimeStateRecord, TransitionResult, ConfirmedTransition,
}
use hass_geofence_journal.Runtime.State.{
  event_type_for, direction_cooldown, Pending, pending, build_confirmed_transition,
}
use hass_geofence_journal.Storage.Transitions.{transition_event}
use hass_geofence_journal.Runtime.Contracts.{RuntimeStorage, RuntimeDependencies}
use hass_geofence_journal.Runtime.Action.{
  Engine, Action, done, ◌>>=◌, ◌>>◌, put_state, forget_scheduled, on_transition,
}
use hass_geofence_journal.Exec.Rules.{
  Leads, Keeps, Leads-then, Leads-lift_bind, Leads-bind, Leads-if, Keeps-bind, Keeps-lift_bind,
  >>=-ok, >>=-err,
}
use hass_geofence_journal.Runtime.Engine.{
  in_cooldown, utc_now, save, replace_state, commit, cancelled_state, restore_at, restore_pending,
  record_transition, settle_agreed, settle_due, confirm_pending, confirm_at, confirm_locked,
}
use hass_geofence_journal.Runtime.Progress.{
  IsQuiet, IsTypeOf, entered, left, Progress, put_state-Quiet, save-Quiet, done-Quiet,
  forget_scheduled-Quiet, schedule-Quiet, utc_now-Quiet, next_id-Quiet, load-Quiet,
  replace_state-Quiet, adopt-Quiet,
}

-- What a built transition and the confirmed state say, from what was pending.
record IsBuilt (found : Pending) (now : ℕ) (r : RuntimeStateRecord) (t : ConfirmedTransition)
    : Type 0 where
  target : t.target_state ≡ found.target
  occurred : t.occurred_at ≡ found.started
  deadline : t.confirmed_deadline ≡ found.deadline
  confirmed : t.confirmed_at ≡ now
  typed : IsTypeOf t.target_state t.event_type
  id : r.last_event_id ≡ some t.event_id
  type : r.last_event_type ≡ some t.event_type
  at : r.last_event_at ≡ some t.confirmed_at
  presence : r.presence_state ≡ t.target_state

some-eq : {A : Type 0} {a b : A} → some a ≡ some b → a ≡ b
some-eq h = ground arith

ok-eq : {A : Type 0} {a b : A} → ok a ≡ ok b → a ≡ b
ok-eq h = ground arith

typed_of :
    (target : PresenceState) (type : LocationEventType)
    → event_type_for target ≡ ok type
    → IsTypeOf target type
unfolding event_type_for
typed_of inside type h = subst (IsTypeOf inside) (ok-eq h) entered
typed_of outside type h = subst (IsTypeOf outside) (ok-eq h) left
typed_of unknown type h = absurd (ground arith)

build_facts :
    (rule : RuleDefinition) (source : LocationSource) (s : RuntimeStateRecord) (found : Pending)
    (now generation id : ℕ) (r : RuntimeStateRecord) (t : ConfirmedTransition)
    → build_confirmed_transition rule source s now generation id ≡ ok (r, t)
    → pending s ≡ some found
    → IsBuilt found now r t
unfolding build_confirmed_transition
build_facts rule source s found now generation id r t e p = record {
  target = ground arith;
  occurred = ground arith;
  deadline = ground arith;
  confirmed = ground arith;
  typed = typed_of t.target_state t.event_type (ground arith);
  id = ground arith;
  type = ground arith;
  at = ground arith;
  presence = ground arith;
}

pending_facts :
    (s : RuntimeStateRecord) (found : Pending)
    → pending s ≡ some found
    → (s.pending_transition ≡ some found.target)
      × (s.pending_started_at ≡ some found.started)
      × (s.pending_deadline ≡ some found.deadline)
unfolding pending
pending_facts s found p = ground arith

module _ (store : RuntimeStorage) (rule : RuleDefinition) (deps : RuntimeDependencies) where
  open store use {Db}

  commit-ok :
      (t : ConfirmedTransition) (e : Engine Db) (r : TransitionResult) (d : Db)
      → store.confirm_transition e.db t ≡ ok (r, d)
      → commit store rule deps t e ≡ (ok r, record e { db = d })
  unfolding commit
  commit-ok t e r d committed = rw (committed, commit)

  commit-err :
      (t : ConfirmedTransition) (e : Engine Db) (x : Error)
      → store.confirm_transition e.db t ≡ err x
      → commit store rule deps t e ≡ (err x, e)
  unfolding commit
  commit-err t e x failed = rw (failed, commit)

  save-state :
      (s : RuntimeStateRecord) (e : Engine Db) → (save store rule deps s e).1.state ≡ e.state
  unfolding save
  save-state s e = elim (Result-cases (store.save_runtime_state e.db s)) [
    | inl (d, saved) ↦ rw (saved, save) refl
    | inr (x, failed) ↦ rw (failed, save) refl
  ]

  module _ (Tie : RuntimeStateRecord → Type 0) (e₀ : Engine Db) where
    abbrev pub Quiet : Engine Db → Type 0
    Quiet e = IsQuiet store rule deps e₀ e

    abbrev pub Moves : Engine Db → Type 0
    Moves e = Progress store rule deps Tie e₀ e

    -- Nothing was recorded, and the engine's state is one that `Tie` speaks of.
    pub record Ready (e : Engine Db) : Type 0 where
      pub calm : IsQuiet store rule deps e₀ e
      pub held : (s : RuntimeStateRecord) → e.state ≡ some s → Tie s

    pub ready : {A : Type 0} {m : Action Db A} → Leads Quiet Moves m → Leads Ready Moves m
    ready k = record { at = λ e h. k.at e h.calm }

    pub utc_now-Ready : Keeps Ready (utc_now store rule deps)
    unfolding utc_now
    utc_now-Ready = record {
      at = λ e h. record { calm = (utc_now-Quiet store rule deps e₀).at e h.calm; held = h.held };
    }

    pub done-Ready : Keeps Ready done
    unfolding done
    done-Ready = record { at = λ e h. h }

    pub save-Ready : (s : RuntimeStateRecord) → Keeps Ready (save store rule deps s)
    unfolding save
    save-Ready s = record {
      at = λ e h. record {
        calm = (save-Quiet store rule deps e₀ s).at e h.calm;
        held = λ x eq. h.held x (sym (save-state s e) ∙ eq);
      };
    }

    pub put_state-Ready : (s : RuntimeStateRecord) → Tie s → Leads Quiet Ready (put_state (some s))
    unfolding put_state
    put_state-Ready s tie = record {
      at = λ e h. record {
        calm = (put_state-Quiet store rule deps e₀ (some s)).at e h;
        held = λ x eq. subst Tie (some-eq eq) tie;
      };
    }

    pub replace_state-Ready :
        (s : RuntimeStateRecord) → Tie s → Leads Quiet Ready (replace_state store rule deps s)
    unfolding replace_state
    replace_state-Ready s tie = Leads-then _ _ (λ e h. h) (put_state-Ready s tie) λ _. save-Ready s

    pub quiet : {A : Type 0} {m : Action Db A} → Keeps Quiet m → Leads Quiet Moves m
    quiet k = record { at = λ e h. inl (k.at e h) }

    ended :
        {A : Type 0} (b : Bool) (m n : Action Db A) (e : Engine Db)
        → (b ≡ true → Moves (m e).1)
        → (b ≡ false → Moves (n e).1)
        → Moves ((if b then m else n) e).1
    ended true m n e hm hn = hm refl
    ended false m n e hm hn = hn refl

    -- The event is in the database, and the observer has not been told.
    record IsAppended (t : ConfirmedTransition) (e : Engine Db) : Type 0 where
      appended : store.events e.db ≡ store.events e₀.db ++ transition_event t ∷ []
      same_notified : e.notified ≡ e₀.notified

    -- What the store answers for a new event.
    abbrev Names : ConfirmedTransition → TransitionResult → Type 0
    Names t r = r ≡ record { event_id = t.event_id; created = true }

    named_result :
        (t : ConfirmedTransition) (r : TransitionResult)
        → r.event_id ≡ t.event_id
        → r.created ≡ true
        → Names t r
    named_result t r id created = ground arith

    -- `commit` followed by a branch on whether the event is new.
    commit-Moves :
        {A : Type 0} (t : ConfirmedTransition) (f g : TransitionResult → Action Db A)
        → ((r : TransitionResult) → Names t r → Leads (IsAppended t) Moves (f r))
        → ((r : TransitionResult) → Leads Quiet Moves (g r))
        → Leads Quiet Moves (commit store rule deps t >>= λ r. if r.created then f r else g r)
    commit-Moves t f g new old = record {
      at = λ e h. elim (Result-cases (store.confirm_transition e.db t)) [
        | inr (x, failed) ↦ rw (>>=-err _ _ e e x (commit-err t e x failed)) (inl h)
        | inl ((r, d), committed) ↦ rw (>>=-ok _ _ e _ r (commit-ok t e r d committed)) (
            ended r.created (f r) (g r) (record e { db = d })
              (λ created.
                let (appended, id) = store.events-confirm e.db d t r committed created in
                (new r (named_result t r id created)).at (record e { db = d })
                  (record { appended = ground (arith, appended); same_notified = h.same_notified }))
              (λ known.
                (old r).at (record e { db = d })
                  (record {
                    same_events =
                        ground (arith, store.confirm_duplicate e.db d t r committed known);
                    same_notified = h.same_notified;
                  })))
      ];
    }

    publish-Moves :
        (s confirmed : RuntimeStateRecord) (t : ConfirmedTransition) (r : TransitionResult)
        (found : Pending) (now : ℕ)
        → Names t r
        → Tie s
        → pending s ≡ some found
        → IsBuilt found now confirmed t
        → found.deadline ≤ now
        → deps.async_evaluate s ≡ some found.target
        → in_cooldown (direction_cooldown s found.target) now ≡ false
        → Leads
            (IsAppended t)
            Moves
            (put_state (some confirmed) >> (on_transition r confirmed >> forget_scheduled))
    unfolding ◌>>=◌ put_state on_transition forget_scheduled
    publish-Moves s confirmed t r found now names tie p built due agreed cooled =
        let fields = pending_facts s found p in
        record {
          at = λ e h. inr (record {
            s = s;
            t = t;
            note = record { result = r; state = confirmed };
            appended = h.appended;
            notified = ap (λ n. n ++ record { result = r; state = confirmed } ∷ []) h.same_notified;
            told = refl;
            told_result = names;
            told_id = built.id;
            told_type = built.type;
            told_at = built.at;
            told_presence = built.presence;
            typed = built.typed;
            tied = tie;
            target = fields.0 ∙ ap some (sym built.target);
            started = fields.1 ∙ ap some (sym built.occurred);
            deadline = fields.2 ∙ ap some (sym built.deadline);
            due = rw (built.deadline, built.confirmed) due;
            agreed = agreed ∙ ap some (sym built.target);
            cooled = rw (built.target, built.confirmed) cooled;
          });
        }

    record_transition-Moves :
        (s : RuntimeStateRecord) (found : Pending) (now generation : ℕ)
        → Tie s
        → pending s ≡ some found
        → found.deadline ≤ now
        → deps.async_evaluate s ≡ some found.target
        → in_cooldown (direction_cooldown s found.target) now ≡ false
        → Leads Quiet Moves (record_transition store rule deps s now generation)
    unfolding record_transition
    record_transition-Moves s found now generation tie p due agreed cooled =
        Leads-bind _ _ (λ e h. inl h) (next_id-Quiet store rule deps e₀)
          λ id.
            Leads-lift_bind _ _ (λ e h. inl h)
              λ built made.
                let facts =
                  build_facts rule deps.source s found now generation id built.0 built.1 made p in
                commit-Moves built.1 _ _
                  (λ r names.
                    publish-Moves s built.0 built.1 r found now names tie p facts due agreed cooled)
                  λ r. quiet (
                    Keeps-bind _ _ (load-Quiet store rule deps e₀) λ x.
                      Keeps-bind _ _ (adopt-Quiet store rule deps e₀ x)
                        λ _. forget_scheduled-Quiet store rule deps e₀)

    settle_agreed-Moves :
        (s : RuntimeStateRecord) (found : Pending) (now generation : ℕ)
        → Tie s
        → pending s ≡ some found
        → found.deadline ≤ now
        → deps.async_evaluate s ≡ some found.target
        → Leads Quiet Moves (settle_agreed store rule deps s found.target now generation)
    unfolding settle_agreed
    settle_agreed-Moves s found now generation tie p due agreed =
        Leads-if (in_cooldown (direction_cooldown s found.target) now) _ _
          (λ _.
            quiet
              (Keeps-lift_bind _ _ λ corrected _. replace_state-Quiet store rule deps e₀ corrected))
          (λ cooled. record_transition-Moves s found now generation tie p due agreed cooled)

    settle_due-Moves :
        (s : RuntimeStateRecord) (found : Pending) (now generation : ℕ) (x : Option PresenceState)
        → Tie s
        → pending s ≡ some found
        → found.deadline ≤ now
        → deps.async_evaluate s ≡ x
        → Leads Quiet Moves (settle_due store rule deps s found.target now generation x)
    unfolding settle_due
    settle_due-Moves s found now generation none tie p due e =
        quiet (forget_scheduled-Quiet store rule deps e₀)
    settle_due-Moves s found now generation (some q) tie p due e =
        Leads-if (not (is_presence q found.target)) _ _
          (λ _. quiet (
            Keeps-bind _ _ (replace_state-Quiet store rule deps e₀ (cancelled_state s now))
              λ _. forget_scheduled-Quiet store rule deps e₀))
          (λ same.
            settle_agreed-Moves s found now generation tie p due
              (e ∙ ap some (is_presence→eq q found.target (ground arith))))

    module _ (confirm : ℕ → Action Db (Unit {0}))
        (again : (g : ℕ) → Leads Ready Moves (confirm g)) where
      restore_at-Moves :
          (generation : ℕ) (deadline : Option ℕ)
          → Leads Ready Moves (restore_at store rule deps confirm generation deadline)
      unfolding restore_at
      restore_at-Moves generation none = ready (quiet (done-Quiet store rule deps e₀))
      restore_at-Moves generation (some deadline) =
          Leads-bind _ _ (λ e h. inl h.calm) utc_now-Ready
            λ now.
              Leads-if (leb deadline now) _ _ (λ _. again generation)
                λ _. ready (quiet (schedule-Quiet store rule deps e₀ (deadline - now) generation))

      pub restore_pending-Moves :
          (s : RuntimeStateRecord) → Leads Ready Moves (restore_pending store rule deps confirm s)
      unfolding restore_pending
      restore_pending-Moves s = restore_at-Moves s.pending_generation s.pending_deadline

      confirm_pending-Moves :
          (s : RuntimeStateRecord) (generation : ℕ) (found : Option Pending)
          → Tie s
          → pending s ≡ found
          → Leads Ready Moves (confirm_pending store rule deps confirm s generation found)
      unfolding confirm_pending
      confirm_pending-Moves s generation none tie p = ready (quiet (done-Quiet store rule deps e₀))
      confirm_pending-Moves s generation (some found) tie p =
          Leads-bind _ _ (λ e h. inl h.calm) utc_now-Ready
            λ now.
              Leads-if (ltb now found.deadline) _ _ (λ _. restore_pending-Moves s)
                λ late. ready (
                  settle_due-Moves s found now generation (deps.async_evaluate s) tie p
                    (ground arith) refl)

      confirm_at-Moves :
          (generation : ℕ) (x : Option RuntimeStateRecord)
          → ((s : RuntimeStateRecord) → x ≡ some s → Tie s)
          → Leads Ready Moves (confirm_at store rule deps confirm generation x)
      unfolding confirm_at
      confirm_at-Moves generation none tie = ready (quiet (done-Quiet store rule deps e₀))
      confirm_at-Moves generation (some s) tie =
          Leads-if (s.pending_generation == generation) _ _
            (λ _. confirm_pending-Moves s generation (pending s) (tie s refl) refl)
            (λ _. ready (quiet (done-Quiet store rule deps e₀)))

    pub confirm_locked-Moves :
        (fuel generation : ℕ) → Leads Ready Moves (confirm_locked store rule deps fuel generation)
    unfolding confirm_locked
    confirm_locked-Moves zero generation = record { at = λ e h. inl h.calm }
    confirm_locked-Moves (suc fuel) generation = record {
      at = λ e h.
          (confirm_at-Moves (confirm_locked store rule deps fuel) (confirm_locked-Moves fuel)
              generation e.state h.held).at
            e h;
    }
