-- ===== src/Worker/Saving/Tests.antt =====
-- Runs of `_persist_loop` of custom_components/hass_questdb_writer/worker.py with two events, on a disk
-- with space and on a full one.
use hass_questdb_writer.Prelude.{◌≡◌, refl, true, false, none, some, List, [], ◌∷◌, inl, inr}
use hass_questdb_writer.Guard.{StorageStatus}
use hass_questdb_writer.Spool.Tests.{small, program}
use hass_questdb_writer.Worker.Tests.{some_settings, some_text, calm, holding}
use hass_questdb_writer.Worker.Saving.{Setup, Turn, returns, shutdown_raises, run}
use hass_questdb_writer.Worker.Saving.Ended.{IsEnded, HasDeadline, run-IsEnded}

abbrev setup : Setup
setup = record { settings = some_settings; limits = small; describe = some_text }

abbrev full : StorageStatus
full = record { free_bytes = 1; total_bytes = 20; reserve_bytes = 5; failed = false }

abbrev on_time : Turn
on_time = record {
  stopping = true;
  deadline = some 5;
  now = 4;
  stats_fault = none;
  surroundings = record calm { status = full; status_after = full };
}

abbrev too_late : Turn
too_late = record on_time { now = 5 }

abbrev blocked_turns : List Turn
blocked_turns = on_time ∷ too_late ∷ []

gives_up : (run setup blocked_turns holding).0 ≡ shutdown_raises 2
unfolding run
gives_up = refl

saves_on_time : (run setup (record on_time { surroundings = calm } ∷ []) holding).0 ≡ returns
unfolding program run
saves_on_time = refl

blocked_turns-HasDeadline : HasDeadline blocked_turns
unfolding HasDeadline
blocked_turns-HasDeadline = inr (inl refl)

run-IsEnded_example : IsEnded (run setup blocked_turns holding)
run-IsEnded_example = run-IsEnded setup blocked_turns holding blocked_turns-HasDeadline
