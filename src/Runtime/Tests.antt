-- ===== src/Runtime/Tests.antt =====
-- Runs of custom_components/hass_questdb_writer/runtime.py at one state change.
use hass_questdb_writer.Prelude.{
  ◌+◌, ◌≡◌, refl, true, false, Option, none, some, List, [], ◌∷◌, Text, pos, negsuc, codes, text_eq,
}
use hass_questdb_writer.Event.Tests.{one_event_json}
use hass_questdb_writer.Worker.{Worker, blocked, block_auth}
use hass_questdb_writer.Worker.Tests.{idle, some_settings}
use hass_questdb_writer.Runtime.{State, Surroundings, Runtime, datetime_to_epoch_ns, state_changed}
use hass_questdb_writer.Runtime.Listener.{run, outcomes, run_counts, Changes, state_changed_lem}
use hass_questdb_writer.Runtime.Auth.{Issue, monitor, outages, last_outage, monitor_lem}

abbrev desk_light : State Text
desk_light = record {
  entity_id = codes "light.desk";
  state = codes "on";
  attributes = (codes "unit", codes "lm") ∷ [];
  last_changed = some (record { days = pos 0; seconds = 1; microseconds = 0 });
  last_updated = some (record { days = pos 0; seconds = 2; microseconds = 5 });
  context_id = none;
}

-- Home Assistant, with attributes that print as an empty object and a worker that takes large
-- events.
abbrev home : Surroundings Text
home = record {
  json = one_event_json;
  json_dumps = λ _. some (codes "{}");
  fnmatchcase = text_eq;
  entity_filter = none;
  attribute_filter = some (record { allow = []; deny = codes "unit" ∷ [] });
  settings = record some_settings { max_serialized_event_bytes = 100 };
  describe = λ _. [];
  event_id = codes "e1";
  wall_time_ns = pos 9;
}

abbrev listener : Runtime
listener = record {
  events_seen = 0;
  events_accepted = 0;
  events_without_new_state = 0;
  events_skipped_unknown = 0;
  events_excluded = 0;
  attribute_entries_removed = 0;
  conversion_errors = 0;
  submission_rejections = 0;
  worker = idle;
}

one_second_before :
    datetime_to_epoch_ns (some (record { days = negsuc 0; seconds = 86399; microseconds = 0 }))
    ≡ some (negsuc 999999999)
unfolding datetime_to_epoch_ns
one_second_before = refl

accepted :
    ((state_changed home (some desk_light) listener).1.events_accepted ≡ 1)
    × ((state_changed home (some desk_light) listener).1.attribute_entries_removed ≡ 1)
unfolding state_changed one_event_json text_eq
accepted = (refl, refl)

abbrev calls : List (Surroundings Text × Option (State Text))
calls = (home, some desk_light) ∷ (home, none) ∷ []

run_counts_example :
    ((run calls listener).1.events_seen ≡ outcomes (run calls listener).1 + (run calls listener).0)
    × ((run calls listener).1.events_accepted ≡ (run calls listener).1.worker.submitted_events)
run_counts_example = run_counts calls listener refl refl

state_changed_lem_example :
    Changes home desk_light listener (state_changed home (some desk_light) listener)
state_changed_lem_example = state_changed_lem home desk_light listener

abbrev locked_out : Worker
locked_out = record idle { state = blocked; block_reason = some block_auth }

abbrev no_issue : Issue
no_issue = record { is_open = false; reauth_requested = false; requests = 0 }

abbrev rounds : List Worker
rounds = locked_out ∷ locked_out ∷ idle ∷ locked_out ∷ []

monitor_lem_example :
    ((monitor true rounds no_issue).requests ≡ 0 + outages false rounds)
    × ((monitor true rounds no_issue).is_open ≡ last_outage false rounds)
monitor_lem_example = monitor_lem rounds no_issue
