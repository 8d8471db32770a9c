-- ===== src/Worker/Loop/Tests.antt =====
-- Runs of `_delivery_loop` of custom_components/hass_questdb_writer/worker.py over a spool of two
-- rows.
use hass_questdb_writer.Prelude.{
  ◌≡◌, refl, ◌⊎◌, true, false, none, some, List, [], ◌∷◌, Text, Bytes, Result, ok, err, codes,
  text_eq,
}
use hass_questdb_writer.Spool.Tests.{small, program}
use hass_questdb_writer.Schema.Manager
use hass_questdb_writer.Schema.Manager.{Answers, ensure}
use hass_questdb_writer.Schema.Tests.{enterprise, weekly}
use hass_questdb_writer.Worker.Tests.{some_settings, some_text, loaded, online, unreachable}
use hass_questdb_writer.Worker.Loop.{Setup, Turn, Delivery, run}
use hass_questdb_writer.Worker.Loop.Gated.{IsUnsent, HasValidated, run-HasValidated, run_blocked}

abbrev plain : Bytes → Result Text Bytes
plain b = ok b

abbrev some_error : Manager.Raised → Text
some_error _ = 120 ∷ []

abbrev setup : Setup
setup = record {
  settings = some_settings;
  flush_interval = 5;
  limits = small;
  describe = some_text;
  describe_schema = some_error;
  encode = plain;
  table = codes "hass";
}

abbrev down : Answers
down = record enterprise { created = err unreachable }

abbrev offline_turn : Turn
offline_turn = record {
  stop = false;
  answers = down;
  delay = 1;
  now = 10;
  later = 11;
  stats_fault = none;
  stats_fault_after = none;
  conditions = online;
}

abbrev online_turn : Turn
online_turn = record offline_turn { answers = enterprise }

abbrev fresh : Delivery
fresh = record {
  worker = loaded;
  manager = some weekly;
  flush_at = none;
  retry_at = none;
  is_blocked = false;
  isolate_next = false;
  is_schema_ready = false;
}

abbrev two_turns : List Turn
two_turns = offline_turn ∷ online_turn ∷ []

delivers_when_validated : (run setup two_turns fresh).worker.delivered_events ≡ 2
unfolding program run ensure text_eq
delivers_when_validated = refl

keeps_while_offline : (run setup (offline_turn ∷ []) fresh).worker.delivered_events ≡ 0
unfolding run ensure text_eq
keeps_while_offline = refl

run-HasValidated_example :
    IsUnsent loaded (run setup two_turns fresh).worker ⊎ HasValidated two_turns
run-HasValidated_example = run-HasValidated setup two_turns fresh (refl, (weekly, refl))

abbrev stuck : Delivery
stuck = record fresh { is_blocked = true }

run_blocked_example :
    IsUnsent loaded (run setup two_turns stuck).worker
    × ((run setup two_turns stuck).is_blocked ≡ true)
run_blocked_example = run_blocked setup two_turns stuck refl
