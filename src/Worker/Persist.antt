-- ===== src/Worker/Persist.antt =====
-- The persist side of custom_components/hass_questdb_writer/worker.py: `_check_storage`,
-- `_reclaim_spool` and `_persist_held`.
use hass_questdb_writer.Prelude.{
  ℕ, ◌+◌, ◌-◌, Bool, true, false, not, ◌&&◌, ◌||◌, Option, none, some, [], length, ltb, ◌==◌,
  if◌then◌else◌, Text, is_empty, Result, ok, err,
}
use hass_questdb_writer.Spool.Types.{SqliteError, Error, Limits, Spool}
use hass_questdb_writer.Spool.Enqueue.{enqueue_many}
use hass_questdb_writer.Spool.Peek.{stats}
use hass_questdb_writer.Guard.{StorageStatus, is_blocked}
use hass_questdb_writer.Worker.{
  Worker, Cause, spool_cause, storage_cause, Reason, block_spool_full, block_disk_space,
  block_on_storage, resume_after_storage_block, storage_block_reason,
}

-- `SpoolReclaim`; `failed` stands for an `error` that is not None.
pub record SpoolReclaim : Type 0 where
  pub auto_vacuum : ℕ
  pub freed_pages : ℕ
  pub wal_truncated : Bool
  pub failed : Bool

-- What a call of `_persist_held` meets: the clock in nanoseconds, the two measurements of the
-- guard, the answers of `reclaim` and `compact` (`none` where they raise SpoolError), and the
-- failing statement of the insert and of the counters, if any.
pub record Surroundings : Type 0 where
  pub now : ℕ
  pub status : StorageStatus
  pub status_after : StorageStatus
  pub reclaimed : Option SpoolReclaim
  pub compacted : Option SpoolReclaim
  pub enqueue_fault : Option SqliteError
  pub stats_fault : Option SqliteError

abbrev pub reclaim_interval : ℕ
reclaim_interval = 1000000000

-- `last is not None and now - last < _RECLAIM_INTERVAL_SECONDS`
abbrev pub is_too_soon : ℕ → Option ℕ → Bool
is_too_soon now none = false
is_too_soon now (some last) = ltb (now - last) reclaim_interval

-- `compact`, the one rewrite of a pause
abbrev pub rewrite : Option SpoolReclaim → Bool
rewrite none = false
rewrite (some r) = not r.failed

-- What follows the answer of `reclaim`.
unfoldable pub after_reclaim : Option SpoolReclaim → Option SpoolReclaim → Worker → Bool × Worker
after_reclaim none compacted w = (false, w)
after_reclaim (some r) compacted w =
    if r.failed
    then (false, w)
    else if not (r.auto_vacuum == 2) && not w.rewrite_attempted
    then (rewrite compacted, record w { rewrite_attempted = true })
    else (ltb 0 r.freed_pages || r.wal_truncated, w)

-- `_reclaim_spool`; its log lines are not modelled.
unfoldable pub reclaim_spool : Surroundings → Worker → Bool × Worker
unfolding after_reclaim
reclaim_spool env w =
    if is_too_soon env.now w.last_reclaim
    then (false, w)
    else after_reclaim env.reclaimed env.compacted (record w { last_reclaim = some env.now })

-- `_check_storage`, where the measurement is at hand.
abbrev pub measured : StorageStatus → Worker → Worker
measured status w = record w { disk_status = some status }

-- The measurement that decides, after a reclamation that moved something the second one.
unfoldable pub check_space : Surroundings → Worker → StorageStatus × Worker
unfolding is_blocked reclaim_spool
check_space env w =
    let w1 = measured env.status w in
    let (moved, w2) = reclaim_spool env w1 in
    if is_blocked env.status
    then (if moved then (env.status_after, measured env.status_after w2) else (env.status, w2))
    else (env.status, w1)

-- The reason for a pause after an insert that raised, if the two handlers catch the exception.
unfoldable pub persist_reason : Error → Option Reason
unfolding storage_block_reason
persist_reason Error.spool_full = some block_spool_full
persist_reason x = storage_block_reason x

-- What follows an insert that raised.
unfoldable pub persist_failed : (Cause → Text) → Error → Worker → Result Error Bool × Worker
unfolding persist_reason block_on_storage
persist_failed describe x w = elim (persist_reason x) [
  | none ↦ (err x, w)
  | some reason ↦ (ok false, block_on_storage reason (describe (spool_cause x)) w)
]

-- What follows an insert that returned.
unfoldable pub persist_done : Option SqliteError → Worker → Result Error Bool × Worker
unfolding stats resume_after_storage_block
persist_done fault w =
    let w' : Worker = record w {
      persisted_events = w.persisted_events + length w.held;
      held = [];
      held_unpersisted = 0;
    } in
    elim (stats fault w'.spool) [
      | err x ↦ (err x, w')
      | ok s ↦ (ok true, resume_after_storage_block (record w' { spool_stats = s }))
    ]

-- What follows the insert.
unfoldable pub after_insert :
    (Cause → Text) → Surroundings → Worker → Result Error ℕ × Spool → Result Error Bool × Worker
unfolding persist_failed persist_done
after_insert describe env w (err x, s) = persist_failed describe x (record w { spool = s })
after_insert describe env w (ok _, s) = persist_done env.stats_fault (record w { spool = s })

-- The insert of the held events.
unfoldable pub persist_write :
    Limits → (Cause → Text) → Surroundings → Worker → Result Error Bool × Worker
unfolding after_insert enqueue_many
persist_write limits describe env w =
    after_insert describe env w (enqueue_many limits env.enqueue_fault w.held w.spool)

-- `_persist_held`
unfoldable pub persist_held :
    Limits → (Cause → Text) → Surroundings → Worker → Result Error Bool × Worker
unfolding check_space is_blocked block_on_storage persist_write
persist_held limits describe env w =
    let (status, w1) = check_space env w in
    if is_empty w.held
    then (ok true, w)
    else if is_blocked status
    then (ok false, block_on_storage block_disk_space (describe (storage_cause status)) w1)
    else persist_write limits describe env w1
