-- ===== src/Worker/Saving.antt =====
-- `_persist_loop` of custom_components/hass_questdb_writer/worker.py, turn by turn.
pub mod Ended
mod Tests
use hass_questdb_writer.Prelude.{
  ℕ, ◌+◌, Bool, true, false, ◌&&◌, Option, none, some, List, [], ◌∷◌, length, leb, if◌then◌else◌,
  Text, is_empty, Result, ok, err,
}
use hass_questdb_writer.Spool.Types.{SqliteError, Error, Limits, Stats}
use hass_questdb_writer.Spool.Peek.{stats}
use hass_questdb_writer.Worker.{Worker, Settings, Cause, drain_ingress}
use hass_questdb_writer.Worker.Persist.{Surroundings, persist_held}

-- What the loop is given.
pub record Setup : Type 0 where
  pub settings : Settings
  pub limits : Limits
  pub describe : Cause → Text

-- What a turn meets: whether a stop is requested, its deadline and the clock when it is compared, the
-- failing statement of `stats`, if any, and what `_persist_held` meets.
pub record Turn : Type 0 where
  pub stopping : Bool
  pub deadline : Option ℕ
  pub now : ℕ
  pub stats_fault : Option SqliteError
  pub surroundings : Surroundings

-- How a turn ends: the loop goes on, returns, or an exception leaves it; WorkerShutdownError names
-- the number of events that are left.
pub data Ending : Type 0 where
  goes_on returns : Ending
  spool_raises : Error → Ending
  shutdown_raises : ℕ → Ending

abbrev pub is_over : ℕ → Option ℕ → Bool
is_over now none = false
is_over now (some at) = leb at now

-- The end of a turn.
unfoldable pub check_stop : Turn → Worker → Ending
check_stop t w =
    if t.stopping
    then (if is_empty w.held && is_empty w.ingress
        then returns
        else if is_over t.now t.deadline
        then shutdown_raises (length w.held + length w.ingress)
        else goes_on)
    else goes_on

-- What follows `spool.stats()`.
unfoldable pub after_stats : Turn → Result Error Stats → Worker → Ending × Worker
unfolding check_stop
after_stats t (err x) w = (spool_raises x, w)
after_stats t (ok st) w = let w' : Worker = record w { spool_stats = st } in (check_stop t w', w')

-- What follows `_persist_held`.
unfoldable pub after_persist : Turn → Result Error Bool × Worker → Ending × Worker
unfolding after_stats stats
after_persist t (err x, w) = (spool_raises x, w)
after_persist t (ok _, w) = after_stats t (stats t.stats_fault w.spool) w

-- A turn of the loop after `_drain_ingress`.
unfoldable pub save : Setup → Turn → Worker → Ending × Worker
unfolding after_persist persist_held
save s t w =
    after_persist t
      (if is_empty w.held then (ok true, w) else persist_held s.limits s.describe t.surroundings w)

-- A turn of the loop.
unfoldable pub turn : Setup → Turn → Worker → Ending × Worker
unfolding save drain_ingress
turn s t w = save s t (drain_ingress s.settings w)

-- What a turn makes of the turns after it.
abbrev pub next : Ending × Worker → Ending × Worker → Ending × Worker
next (goes_on, w) rest = rest
next p rest = p

-- `_persist_loop`, for as many turns as there are; no other task changes the worker between them.
unfoldable pub run : Setup → List Turn → Worker → Ending × Worker
unfolding turn
run s [] w = (goes_on, w)
run s (t ∷ ts) w =
    let p : Ending × Worker = turn s t w in let rest : Ending × Worker = run s ts p.1 in next p rest
