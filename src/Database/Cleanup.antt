-- ===== src/Database/Cleanup.antt =====
-- The cleanup worker of database/database.go, among the calls of others.
use auth_middleware.Prelude.{ℕ, ◌+◌, List, [], ◌∷◌}
use auth_middleware.Database.{Tables, Engine, cleanup_old_devices}
use auth_middleware.Database.Invariant.{WellFormed, Call, cleanup, perform, perform-WellFormed}

-- What happens while the worker runs: its ticker fires, its context is done, or another caller uses
-- the database, or time passes.
pub data Event : Type 0 where
  tick done : Event
  called : Call → Event
  passes : (seconds : ℕ) → Event

-- startCleanupWorker: an error of a cleanup is only logged, and the worker goes on
unfoldable pub start_cleanup_worker : Engine → List Event → Tables → Tables
unfolding cleanup_old_devices perform
start_cleanup_worker e [] t = t
start_cleanup_worker e (done ∷ events) t = t
start_cleanup_worker e (tick ∷ events) t = start_cleanup_worker e events (cleanup_old_devices t).1
start_cleanup_worker e (called c ∷ events) t = start_cleanup_worker e events (perform e c t)
start_cleanup_worker e (passes seconds ∷ events) t =
    start_cleanup_worker e events (record t { clock = t.clock + seconds })

-- The worker keeps the constraints of the tables, whatever its ticks meet and whatever others call
-- meanwhile.
pub start_cleanup_worker-WellFormed :
    (e : Engine) (events : List Event) (t : Tables)
    → WellFormed e t
    → WellFormed e (start_cleanup_worker e events t)
unfolding start_cleanup_worker perform
start_cleanup_worker-WellFormed e [] t h = h
start_cleanup_worker-WellFormed e (done ∷ events) t h = h
start_cleanup_worker-WellFormed e (tick ∷ events) t h =
    start_cleanup_worker-WellFormed e events _ (perform-WellFormed e cleanup t h)
start_cleanup_worker-WellFormed e (called c ∷ events) t h =
    start_cleanup_worker-WellFormed e events _ (perform-WellFormed e c t h)
start_cleanup_worker-WellFormed e (passes seconds ∷ events) t h =
    start_cleanup_worker-WellFormed e events _
      (record { unique = h.unique; in_range = h.in_range; owned = h.owned })
