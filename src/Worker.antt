-- ===== src/Worker.antt =====
-- `WriterService` of custom_components/hass_questdb_writer/worker.py: its state.
pub mod Persist
pub mod Accounting
pub mod Persisted
pub mod Reachable
pub mod Delivered
pub mod Batch
pub mod Lifecycle
pub mod Loop
pub mod Saving
mod BatchTests
pub mod Tests
pub mod Deliver
use hass_questdb_writer.Prelude.{
  ℕ, zero, suc, ◌+◌, ◌-◌, Bool, true, false, not, ◌&&◌, Option, none, some, List, [], ◌∷◌, ◌++◌,
  length, drop, ltb, if◌then◌else◌, ℤ, Text, Bytes, Result, ok, err, Exec,
}
use hass_questdb_writer.Spool.Types.{Error, NewEvent, Stats, Spool}
use hass_questdb_writer.Guard.{StorageStatus}
use hass_questdb_writer.Transport.{TransportError}

pub data WorkerState : Type 0 where
  new starting running retry_wait blocked stopping stopped failed : WorkerState

-- The `_BLOCK_…` reasons.
pub data Reason : Type 0 where
  block_auth block_spool_full block_disk_full block_read_only block_disk_space block_storage :
      Reason

pub record Settings : Type 0 where
  pub ingress_queue_capacity : ℕ
  pub max_serialized_event_bytes : ℕ
  pub persist_batch_rows : ℕ
  pub delivery_batch_rows : ℕ
  pub delivery_batch_bytes : ℕ

-- What a text of the worker explains. The texts are arguments of the model, see `describe`.
pub data Cause : Type 0 where
  spool_cause : Error → Cause
  transport_cause : TransportError → Cause
  storage_cause : StorageStatus → Cause
  oversized_cause : ℕ → Cause
  overflow_cause move_failed_cause configuration_cause : Cause

-- The fields that operations change, the list `held` of the persist loop, and the spool that the
-- worker owns. Of an error record only its text is kept, and delays are in any unit.
pub record Worker : Type 0 where
  pub ingress : List NewEvent
  pub held : List NewEvent
  pub spool : Spool
  pub state : WorkerState
  pub accepting : Bool
  pub held_unpersisted : ℕ
  pub ingress_high_watermark : ℕ
  pub submitted_events : ℕ
  pub persisted_events : ℕ
  pub delivered_events : ℕ
  pub retry_attempts : ℕ
  pub dead_lettered_events : ℕ
  pub dead_letter_evicted_events : ℕ
  pub uncertain_delivered_events : ℕ
  pub overflowed_events : ℕ
  pub oversized_events : ℕ
  pub spool_stats : Stats
  pub retry_delay : Option ℕ
  pub last_error : Option Text
  pub last_success_ns : Option ℤ
  pub block_reason : Option Reason
  pub last_errors : List Text
  pub storage_blocks : ℕ
  pub storage_block_attempts : ℕ
  pub storage_recoveries : ℕ
  pub storage_episode : Option Reason
  pub last_reclaim : Option ℕ
  pub rewrite_attempted : Bool
  pub disk_status : Option StorageStatus

-- `deque(maxlen=10)`: an eleventh error pushes out the oldest.
unfoldable pub append_error : Text → List Text → List Text
append_error t errors =
    let errors' = errors ++ t ∷ [] in if ltb 10 (length errors') then drop 1 errors' else errors'

abbrev pub ends : WorkerState → Bool
ends stopping = true
ends failed = true
ends _ = false

abbrev pub is_state_blocked : WorkerState → Bool
is_state_blocked blocked = true
is_state_blocked _ = false

-- `_set_delivery_state`
unfoldable pub set_delivery_state :
    WorkerState → Option Text → Option ℕ → Option Reason → Worker → Worker
unfolding append_error
set_delivery_state state last_error retry_delay block_reason w = record w {
  state = if ends w.state then w.state else state;
  last_error = last_error;
  retry_delay = retry_delay;
  block_reason = if is_state_blocked state then block_reason else none;
  last_errors = elim last_error [ none ↦ w.last_errors | some t ↦ append_error t w.last_errors ];
}

-- The counters of `_block_on_storage`, with the open pause if there is one.
unfoldable pub count_block : Option Reason → Reason → Worker → Worker
count_block none reason w = record w {
  storage_block_attempts = w.storage_block_attempts + 1;
  storage_episode = some reason;
  storage_blocks = w.storage_blocks + 1;
}
count_block (some _) reason w = record w { storage_block_attempts = w.storage_block_attempts + 1 }

-- `_block_on_storage`; its log line is not modelled.
unfoldable pub block_on_storage : Reason → Text → Worker → Worker
unfolding set_delivery_state count_block
block_on_storage reason error w =
    set_delivery_state blocked (some error) none (some reason)
      (count_block w.storage_episode reason w)

-- `_STORAGE_BLOCK_REASONS`
abbrev pub is_storage_reason : Option Reason → Bool
is_storage_reason none = false
is_storage_reason (some block_auth) = false
is_storage_reason (some _) = true

-- The counters of `_resume_after_storage_block`, with the open pause if there is one.
unfoldable pub end_pause : Option Reason → Worker → Worker
end_pause none w = record w { rewrite_attempted = false }
end_pause (some _) w = record w {
  storage_recoveries = w.storage_recoveries + 1;
  storage_episode = none;
  rewrite_attempted = false;
}

-- `_resume_after_storage_block`; its log line is not modelled.
unfoldable pub resume_after_storage_block : Worker → Worker
unfolding set_delivery_state end_pause
resume_after_storage_block w =
    if is_state_blocked w.state && is_storage_reason w.block_reason
    then set_delivery_state running none none none (end_pause w.storage_episode w)
    else end_pause w.storage_episode w

-- `_storage_block_reason`, for the errors that are a `SpoolStorageError`; `none` for all others.
unfoldable pub storage_block_reason : Error → Option Reason
storage_block_reason Error.disk_full = some block_disk_full
storage_block_reason Error.read_only = some block_read_only
storage_block_reason _ = none

-- `submit`, on the envelope's `to_spool_event()`
unfoldable pub submit : Settings → (Cause → Text) → NewEvent → Worker → Bool × Worker
submit settings describe event w =
    if ltb settings.max_serialized_event_bytes (length event.payload)
    then (
      false,
      record w {
        oversized_events = w.oversized_events + 1;
        last_error = some (describe (oversized_cause (length event.payload)));
      },
    )
    else if not w.accepting
    then (false, w)
    else if ltb (length w.ingress) settings.ingress_queue_capacity
    then (
      true,
      record w {
        ingress = w.ingress ++ event ∷ [];
        submitted_events = w.submitted_events + 1;
        ingress_high_watermark =
            if ltb w.ingress_high_watermark (length w.ingress + 1)
            then length w.ingress + 1
            else w.ingress_high_watermark;
      },
    )
    else (
      false,
      record w {
        overflowed_events = w.overflowed_events + 1;
        last_error = some (describe overflow_cause);
      },
    )

-- `_drain_ingress`: the loop, which takes at most `room` events.
unfoldable pub drain : ℕ → List NewEvent → List NewEvent → List NewEvent × List NewEvent
drain zero held queue = (held, queue)
drain (suc room) held [] = (held, [])
drain (suc room) held (e ∷ queue) = drain room (held ++ e ∷ []) queue

unfoldable pub drain_ingress : Settings → Worker → Worker
unfolding drain
drain_ingress settings w =
    let (held, queue) = drain (settings.persist_batch_rows - length w.held) w.held w.ingress in
    record w { held = held; ingress = queue; held_unpersisted = length held }
