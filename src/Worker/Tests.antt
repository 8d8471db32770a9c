-- ===== src/Worker/Tests.antt =====
-- Runs of the worker at small inputs.
use hass_questdb_writer.Prelude.{
  refl, arith, true, false, none, [], ◌∷◌, Text, Result, ok, err, pos, Bytes,
}
use hass_questdb_writer.Spool.Tests.{
  no_stats, empty_spool, small, event_a, event_b, two, empty-IsConsistent, two-IsConsistent,
  two-Member, program,
}
use hass_questdb_writer.Spool.Table.{new_row}
use hass_questdb_writer.Spool.Survival.{Survives}
use hass_questdb_writer.Transport.{TransportError, retryable}
use hass_questdb_writer.Worker.Deliver.{
  Conditions, BuiltBatch, deliver_once, build_batch, after_peek, collect, after_collect,
}
use hass_questdb_writer.Worker.Delivered.{deliver_once-Survives, Delivers, deliver_once-Delivers}
use hass_questdb_writer.Guard.{StorageStatus}
use hass_questdb_writer.Worker.{Worker, running, Cause, Settings, submit, drain_ingress}
use hass_questdb_writer.Worker.Persist.{Surroundings, persist_held}
use hass_questdb_writer.Worker.Accounting.{IsAccounted}
use hass_questdb_writer.Worker.Persisted.{Persists, persist_held_lem}
use hass_questdb_writer.Worker.Reachable.{
  Steps, stays, goes, submits, drains, persists, Steps-IsAccounted,
}

abbrev pub some_settings : Settings
some_settings = record {
  ingress_queue_capacity = 3;
  max_serialized_event_bytes = 4;
  persist_batch_rows = 2;
  delivery_batch_rows = 2;
  delivery_batch_bytes = 100;
}

abbrev pub roomy : StorageStatus
roomy = record { free_bytes = 10; total_bytes = 20; reserve_bytes = 5; failed = false }

abbrev pub calm : Surroundings
calm = record {
  now = 0;
  status = roomy;
  status_after = roomy;
  reclaimed = none;
  compacted = none;
  enqueue_fault = none;
  stats_fault = none;
}

abbrev pub idle : Worker
idle = record {
  ingress = [];
  held = [];
  spool = empty_spool;
  state = running;
  accepting = true;
  held_unpersisted = 0;
  ingress_high_watermark = 0;
  submitted_events = 0;
  persisted_events = 0;
  delivered_events = 0;
  retry_attempts = 0;
  dead_lettered_events = 0;
  dead_letter_evicted_events = 0;
  uncertain_delivered_events = 0;
  overflowed_events = 0;
  oversized_events = 0;
  spool_stats = no_stats;
  retry_delay = none;
  last_error = none;
  last_success_ns = none;
  block_reason = none;
  last_errors = [];
  storage_blocks = 0;
  storage_block_attempts = 0;
  storage_recoveries = 0;
  storage_episode = none;
  last_reclaim = none;
  rewrite_attempted = false;
  disk_status = none;
}

abbrev pub some_text : Cause → Text
some_text _ = 120 ∷ []

abbrev pub holding : Worker
holding = record idle { held = event_a ∷ event_b ∷ []; held_unpersisted = 2; submitted_events = 2 }

persist_held_lem_example : Persists holding (persist_held small some_text calm holding)
persist_held_lem_example = persist_held_lem small some_text calm holding empty-IsConsistent

idle-IsAccounted : IsAccounted some_settings idle
idle-IsAccounted = record {
  accepted = refl;
  queue = omega arith;
  capacity = omega arith;
  held = refl;
  pauses = refl;
  attempts = omega arith;
}

abbrev offered : Worker
offered = (submit some_settings some_text event_a idle).1

abbrev drained : Worker
drained = drain_ingress some_settings offered

abbrev persisted : Worker
persisted = (persist_held small some_text calm drained).1

one_round : Steps some_settings small some_text idle persisted
one_round =
    goes (submits event_a idle)
      (goes (drains offered) (goes (persists calm drained) (stays persisted)))

Steps-IsAccounted_example : IsAccounted some_settings persisted
Steps-IsAccounted_example =
    Steps-IsAccounted some_settings small some_text one_round idle-IsAccounted

abbrev pub loaded : Worker
loaded = record idle { spool = two }

abbrev pub unreachable : TransportError
unreachable = record { kind = retryable; delivery_uncertain = true; status_code = none }

abbrev offline : Conditions
offline = record {
  peek_fault = none;
  write_fault = none;
  now_ns = pos 7;
  delay = 1;
  answer = err unreachable;
}

-- A codec whose encoding is the payload.
abbrev pub plain : Bytes → Result Text Bytes
plain b = ok b

deliver_once-Survives_example :
    Survives
      (new_row event_a 1)
      (deliver_once some_settings small some_text plain offline false loaded).1.spool.db
deliver_once-Survives_example =
    deliver_once-Survives some_settings small some_text plain offline false loaded unreachable
      (new_row event_a 1) two-IsConsistent refl two-Member

abbrev pub online : Conditions
online = record { peek_fault = none; write_fault = none; now_ns = pos 7; delay = 1; answer = ok tt }

abbrev both : BuiltBatch
both = record { payload = 1 ∷ 2 ∷ 3 ∷ []; sequences = 1 ∷ 2 ∷ []; uncertain_sequences = [] }

deliver_once-Delivers_example :
    Delivers both loaded (deliver_once some_settings small some_text plain online false loaded)
unfolding program build_batch after_peek collect after_collect
deliver_once-Delivers_example =
    deliver_once-Delivers some_settings small some_text plain online false loaded both
      two-IsConsistent refl refl refl refl refl refl refl
