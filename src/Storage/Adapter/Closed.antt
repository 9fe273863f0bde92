-- ===== src/Storage/Adapter/Closed.antt =====
-- storage/async_adapter.py: a store that was closed stays closed.
use hass_geofence_journal.Prelude.{◌≡◌, refl, ap, arith, Bool, true, false, List, [], ◌∷◌}
use hass_geofence_journal.Errors.{Result, ok, err, storage_closed}
use hass_geofence_journal.Storage.Sql.{Sql}
use hass_geofence_journal.Storage.Repository.{Pragmas}
use hass_geofence_journal.Storage.Adapter.{AsyncStore, async_open, async_run_operation, async_close}

-- A call of the adapter; every operation but opening and closing is a run of one on the connection.
pub data Call : Type 1 where
  opens : Pragmas → List Bool → Call
  closes : Call
  runs : {A : Type 0} → Sql A → Call

-- What the call raised, if it raised, and the store after it.
unfoldable pub call : Call → AsyncStore → Result (Unit {0}) × AsyncStore
call (opens pragmas faults) a = async_open pragmas faults a
call closes a = (ok tt, async_close a)
call (runs operation) a =
    let (r, a') = async_run_operation operation a in (elim r [ ok _ ↦ ok tt | err x ↦ err x ], a')

unfoldable pub after : List Call → AsyncStore → AsyncStore
after [] a = a
after (c ∷ calls) a = after calls (call c a).1

abbrev pub refuses : Call → Result (Unit {0})
refuses closes = ok tt
refuses _ = err storage_closed

pub record IsClosed (a : AsyncStore) : Type 0 where
  pub closing : a.closing ≡ true
  pub opened : a.opened ≡ false

async_close-IsClosed : (a : AsyncStore) → IsClosed (async_close a)
unfolding async_close
async_close-IsClosed a = record { closing = ground arith; opened = ground arith }

call-IsClosed : (c : Call) (a : AsyncStore) → IsClosed a → call c a ≡ (refuses c, a)
unfolding call async_open async_close async_run_operation
call-IsClosed (opens pragmas faults) a h = simp (h.closing) refl
call-IsClosed closes a h = ap (λ (x : AsyncStore). (ok tt, x)) (ground (arith, h.closing, h.opened))
call-IsClosed (runs operation) a h = simp (h.closing, h.opened) refl

after-IsClosed : (calls : List Call) (a : AsyncStore) → IsClosed a → after calls a ≡ a
unfolding after
after-IsClosed [] a h = refl
after-IsClosed (c ∷ calls) a h = rw (call-IsClosed c a h) (after-IsClosed calls a h)

-- Once the store was closed, every later operation and every attempt to open it again raises
-- StorageClosedError, another close does not, and no sequence of such calls changes the store or
-- its file.
pub async_close-final :
    (a : AsyncStore) (calls : List Call) (c : Call)
    → (after calls (async_close a) ≡ async_close a)
      × (call c (after calls (async_close a)) ≡ (refuses c, async_close a))
async_close-final a calls c =
    let h = async_close-IsClosed a in
    let same = after-IsClosed calls (async_close a) h in
    (same, rw same (call-IsClosed c (async_close a) h))
