-- ===== src/Worker/Lifecycle.antt =====
-- The thread of `WriterService` of custom_components/hass_questdb_writer/worker.py: `start`, `stop`
-- and `_run`, cut into the parts that each run under the lock, so that they may interleave. Waiting
-- and its deadlines are not modelled.
pub mod Reached
mod Tests
use hass_questdb_writer.Prelude.{
  Bool, true, false, not, ◌&&◌, ◌||◌, Option, none, some, if◌then◌else◌, Result, ok, err, ◌≡◌,
}
use hass_questdb_writer.Worker.{
  WorkerState, new, starting, running, retry_wait, blocked, stopping, stopped, failed, ends,
}

-- Where the thread is: not made yet, opening its resources, in its loops, between an exception and
-- its cleanup, or over.
pub data Thread : Type 0 where
  absent opening serving failing over : Thread

pub record Service : Type 0 where
  pub state : WorkerState
  pub accepting : Bool
  pub stop_requested : Bool
  pub thread : Thread

-- `__init__`
abbrev pub fresh : Service
fresh = record { state = new; accepting = false; stop_requested = false; thread = absent }

-- `WorkerStartError` and `WorkerStartTimeoutError`
pub data StartError : Type 0 where
  start_error start_timeout : StartError

abbrev pub is_new : WorkerState → Bool
is_new new = true
is_new _ = false

abbrev pub is_alive : Thread → Bool
is_alive opening = true
is_alive serving = true
is_alive failing = true
is_alive _ = false

-- `start` up to `thread.start()`
unfoldable pub start_thread : Service → Result StartError (Unit {0}) × Service
start_thread s =
    if is_new s.state
    then (ok tt, record s { state = starting; thread = opening })
    else (err start_error, s)

-- `start` when the thread is not ready in time, up to the end of the lock.
unfoldable pub time_out : Service → Service
time_out s = record s { accepting = false }

-- `self._stop_requested.set()`
unfoldable pub request_stop : Service → Service
request_stop s = record s { stop_requested = true }

-- `start` when the thread is ready.
unfoldable pub check_started : Service → Result StartError (Unit {0})
check_started s = elim s.state [
  | failed ↦ err start_error
  | new ↦ err start_error
  | starting ↦ err start_error
  | _ ↦ ok tt
]

-- `stop` under the lock: whether it returns there.
unfoldable pub begin_stop : Service → Bool × Service
begin_stop s =
    if is_new s.state
    then (true, record s { accepting = false; state = stopped })
    else if not (is_alive s.thread)
    then (true, record s { accepting = false })
    else (false, record s { accepting = false; state = stopping })

-- `_run` when its resources are open.
unfoldable pub open_thread : Service → Service
open_thread s =
    if s.stop_requested
    then record s { state = stopping; accepting = false; thread = serving }
    else record s { state = running; accepting = true; thread = serving }

-- `except BaseException` of `_run`
unfoldable pub fail_thread : Service → Service
fail_thread s = record s { accepting = false; state = failed; thread = failing }

abbrev pub is_failing : Thread → Bool
is_failing failing = true
is_failing _ = false

-- `finally` of `_run`; the first argument holds where closing a resource raised.
unfoldable pub end_thread : Bool → Service → Service
end_thread cleanup_error s =
    if is_failing s.thread then record s { accepting = false; thread = over } else record s {
      accepting = false;
      state = if cleanup_error then failed else stopped;
      thread = over;
    }

-- The delivery state that the loops show.
unfoldable pub show_state : WorkerState → Service → Service
show_state state s = if ends s.state then s else record s { state = state }

-- One part of a call or of the thread, in any order that the lock allows. A part of the thread runs
-- where the thread is at it.
pub data Step : Service → Service → Type 0 where
  starts : (s : Service) → Step s (start_thread s).1
  times_out : (s : Service) → Step s (time_out s)
  requests_stop : (s : Service) → Step s (request_stop s)
  stops : (s : Service) → Step s (begin_stop s).1
  opens : (s : Service) → s.thread ≡ opening → Step s (open_thread s)
  fails_opening : (s : Service) → s.thread ≡ opening → Step s (fail_thread s)
  fails_serving : (s : Service) → s.thread ≡ serving → Step s (fail_thread s)
  ends_serving : (s : Service) (b : Bool) → s.thread ≡ serving → Step s (end_thread b s)
  ends_failing : (s : Service) (b : Bool) → s.thread ≡ failing → Step s (end_thread b s)
  shows_running : (s : Service) → s.thread ≡ serving → Step s (show_state running s)
  shows_waiting : (s : Service) → s.thread ≡ serving → Step s (show_state retry_wait s)
  shows_blocked : (s : Service) → s.thread ≡ serving → Step s (show_state blocked s)

pub data Steps : Service → Service → Type 0 where
  stays : (s : Service) → Steps s s
  goes : {s s' s'' : Service} → Step s s' → Steps s' s'' → Steps s s''
