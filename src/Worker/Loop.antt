-- ===== src/Worker/Loop.antt =====
-- `_ensure_schema` and `_delivery_loop` of custom_components/hass_questdb_writer/worker.py, turn by
-- turn. Times are in any unit of the monotonic clock.
pub mod Gated
mod Tests
use hass_questdb_writer.Prelude.{
  ℕ, ◌+◌, ◌-◌, Bool, true, false, not, ◌&&◌, ◌||◌, Option, none, some, List, [], ◌∷◌, ltb, leb,
  ◌==◌, if◌then◌else◌, Text, Bytes, is_empty, Result, ok, err,
}
use hass_questdb_writer.Spool.Types.{SqliteError, Error, Limits, Stats}
use hass_questdb_writer.Spool.Peek.{stats}
use hass_questdb_writer.Transport.{retryable}
use hass_questdb_writer.Schema.{mismatch}
use hass_questdb_writer.Schema.Manager
use hass_questdb_writer.Schema.Manager.{Answers, ensure, is_permanent}
use hass_questdb_writer.Worker.{
  Worker, Settings, Cause, spool_cause, running, blocked, retry_wait, Reason, set_delivery_state,
  block_on_storage, storage_block_reason,
}
use hass_questdb_writer.Worker.Deliver.{
  Conditions, Raised, raised, configuration_error, Outcome, success, split, dead_letter,
  delivery_blocked, retry, deliver_once,
}

-- What the loop is given: the settings with `flush_interval_seconds`, the texts, the codec and the
-- table.
pub record Setup : Type 0 where
  pub settings : Settings
  pub flush_interval : ℕ
  pub limits : Limits
  pub describe : Cause → Text
  pub describe_schema : Manager.Raised → Text
  pub encode : Bytes → Result Text Bytes
  pub table : Text

-- What a turn meets: whether a stop is requested, the answers to `ensure`, the next delay of the
-- backoff, the clock at the start, after the delivery and before the wait, the failing statements
-- of `stats` before and after the delivery, if any, and what `_deliver_once` meets.
pub record Turn : Type 0 where
  pub stop : Bool
  pub answers : Answers
  pub delay : ℕ
  pub now : ℕ
  pub later : ℕ
  pub stats_fault : Option SqliteError
  pub stats_fault_after : Option SqliteError
  pub conditions : Conditions

-- The worker and the locals of the loop: `flush_at` is `pending_since` with the flush interval
-- added, and `manager` is `schema`.
pub record Delivery : Type 0 where
  pub worker : Worker
  pub manager : Option Manager.Manager
  pub flush_at : Option ℕ
  pub retry_at : Option ℕ
  pub is_blocked : Bool
  pub isolate_next : Bool
  pub is_schema_ready : Bool

-- How a turn ends: the loop returns, an exception leaves it, it continues, or waits before.
pub data Ending : Type 0 where
  returns continues : Ending
  schema_raises : Manager.Raised → Ending
  spool_raises : Raised → Ending
  waits : ℕ → Ending

-- `except (SchemaMismatchError, PermanentIlpError)`
abbrev pub is_lasting : Manager.Raised → Bool
is_lasting (Manager.schema_error mismatch) = true
is_lasting (Manager.transport_error e) = is_permanent e.kind
is_lasting _ = false

-- `except RetryableIlpError`
abbrev pub is_retryable : Manager.Raised → Bool
is_retryable (Manager.transport_error e) = not (is_permanent e.kind)
is_retryable _ = false

-- What `_ensure_schema` makes of how `ensure` ends; the wait after a failure is not modelled.
unfoldable pub after_ensure :
    Setup → ℕ → Result Manager.Raised (Unit {0}) → Worker → Result Manager.Raised Bool × Worker
unfolding set_delivery_state
after_ensure s delay (ok _) w = (ok true, set_delivery_state running none none none w)
after_ensure s delay (err x) w =
    if is_lasting x
    then (ok false, set_delivery_state blocked (some (s.describe_schema x)) none none w)
    else if is_retryable x
    then (
      ok false,
      set_delivery_state retry_wait (some (s.describe_schema x)) (some delay) none
          (record w { retry_attempts = w.retry_attempts + 1 }),
    )
    else (err x, w)

abbrev pub is_reached : ℕ → Option ℕ → Bool
is_reached now none = false
is_reached now (some at) = leb at now

-- `retry_at is None or now >= retry_at`
abbrev pub is_retry_ready : ℕ → Option ℕ → Bool
is_retry_ready now none = true
is_retry_ready now (some at) = leb at now

-- `pending_since` after the counters are read.
unfoldable pub pending_from : Setup → ℕ → Stats → Option ℕ → Option ℕ
pending_from s now st flush_at =
    if st.pending_rows == 0
    then none
    else elim flush_at [ none ↦ some (now + s.flush_interval) | some at ↦ some at ]

-- `delivery_due`
unfoldable pub is_due : Setup → ℕ → Stats → Delivery → Bool
is_due s now st d =
    let flush_due =
      leb s.settings.delivery_batch_rows st.pending_rows
      || leb s.settings.delivery_batch_bytes st.pending_bytes
      || is_reached now d.flush_at in
    let pressure_due =
      ltb 0 st.pending_rows && is_empty d.worker.ingress && (d.worker.held_unpersisted == 0) in
    ltb 0 st.pending_rows
    && (not d.is_blocked && (is_retry_ready now d.retry_at && (flush_due || pressure_due)))

abbrev pub earlier : ℕ → ℕ → Option ℕ → ℕ
earlier now a none = a
earlier now a (some b) = if ltb now b && ltb b a then b else a

-- The `delay` of the wait at the end of a turn.
unfoldable pub wait_delay : Setup → Turn → Delivery → ℕ
wait_delay s t d =
    earlier t.now (earlier t.now (t.now + s.flush_interval) d.flush_at) d.retry_at - t.later

abbrev pub is_split : Outcome → Bool
is_split split = true
is_split _ = false

-- `retry_at` and `blocked` after an outcome.
unfoldable pub note_outcome : ℕ → Outcome → Delivery → Delivery
note_outcome later (retry delay) d = record d { retry_at = some (later + delay) }
note_outcome later delivery_blocked d = record d { is_blocked = true; retry_at = none }
note_outcome later _ d = record d { retry_at = none }

abbrev pub is_progress : Outcome → Bool
is_progress success = true
is_progress dead_letter = true
is_progress _ = false

-- After an outcome, with the counters read again.
unfoldable pub settle : ℕ → Outcome → Stats → Delivery → Delivery
unfolding note_outcome
settle later outcome st d =
    let d' : Delivery = note_outcome later outcome d in
    record d' {
      isolate_next = is_split outcome;
      flush_at =
          if is_progress outcome
          then (if st.pending_rows == 0 then none else some later)
          else d'.flush_at;
    }

abbrev pub count_stats : Stats → Delivery → Delivery
count_stats st d = record d { worker = record d.worker { spool_stats = st } }

-- After an exception of the spool: the handler of SpoolStorageError, if it is one.
unfoldable pub park : Setup → Turn → Error → Delivery → Ending × Delivery
unfolding storage_block_reason block_on_storage
park s t x d = elim (storage_block_reason x) [
  | none ↦ (spool_raises (raised x), d)
  | some reason ↦ (
    continues,
    record d {
      worker = block_on_storage reason (s.describe (spool_cause x)) d.worker;
      retry_at = some (t.later + t.delay);
    },
  )
]

-- What follows `_deliver_once`.
unfoldable pub after_deliver :
    Setup → Turn → Result Raised Outcome × Worker → Delivery → Ending × Delivery
unfolding park settle stats
after_deliver s t (err configuration_error, w) d =
    (spool_raises configuration_error, record d { worker = w })
after_deliver s t (err (raised x), w) d = park s t x (record d { worker = w })
after_deliver s t (ok outcome, w) d = elim (stats t.stats_fault_after w.spool) [
  | err x ↦ (spool_raises (raised x), record d { worker = w })
  | ok st ↦ (continues, settle t.later outcome st (count_stats st (record d { worker = w })))
]

-- What follows the counters.
unfoldable pub after_stats : Setup → Turn → Stats → Delivery → Ending × Delivery
unfolding is_due after_deliver deliver_once wait_delay
after_stats s t st d =
    if is_due s t.now st d
    then after_deliver s t
        (deliver_once s.settings s.limits s.describe s.encode t.conditions d.isolate_next d.worker)
        d
    else (waits (wait_delay s t d), d)

-- What follows `spool.stats()`.
unfoldable pub after_read : Setup → Turn → Result Error Stats → Delivery → Ending × Delivery
unfolding pending_from after_stats
after_read s t (err x) d = (spool_raises (raised x), d)
after_read s t (ok st) d =
    after_stats s t st (count_stats st (record d { flush_at = pending_from s t.now st d.flush_at }))

-- A turn with the schema ready.
unfoldable pub ready_turn : Setup → Turn → Delivery → Ending × Delivery
unfolding stats after_read
ready_turn s t d = after_read s t (stats t.stats_fault d.worker.spool) d

-- What follows `_ensure_schema`.
unfoldable pub after_gate :
    Setup → Turn → Result Manager.Raised Bool × Worker → Delivery → Ending × Delivery
unfolding ready_turn
after_gate s t (err x, w) d = (schema_raises x, record d { worker = w })
after_gate s t (ok false, w) d = (continues, record d { worker = w })
after_gate s t (ok true, w) d = ready_turn s t (record d { worker = w; is_schema_ready = true })

-- The gate of a turn, by the schema manager.
unfoldable pub gate : Setup → Turn → Option Manager.Manager → Delivery → Ending × Delivery
unfolding after_gate after_ensure ensure ready_turn
gate s t none d = ready_turn s t (record d { is_schema_ready = true })
gate s t (some m) d =
    let (r, m') = ensure s.table t.answers m in
    after_gate s t (after_ensure s t.delay r d.worker) (record d { manager = some m' })

-- A turn of the loop.
unfoldable pub turn : Setup → Turn → Delivery → Ending × Delivery
unfolding ready_turn gate
turn s t d =
    if t.stop
    then (returns, d)
    else if d.is_schema_ready
    then ready_turn s t d
    else gate s t d.manager d

-- Whether the loop has another turn.
abbrev pub goes_on : Ending → Bool
goes_on continues = true
goes_on (waits _) = true
goes_on _ = false

-- `_delivery_loop`, for as many turns as there are; no other task changes the worker between them.
unfoldable pub run : Setup → List Turn → Delivery → Delivery
unfolding turn
run s [] d = d
run s (t ∷ ts) d =
    let (ending, d') = turn s t d in
    let rest : Delivery = run s ts d' in if goes_on ending then rest else d'
