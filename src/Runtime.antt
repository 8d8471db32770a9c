-- ===== src/Runtime.antt =====
-- The listener of custom_components/hass_questdb_writer/runtime.py: the counters of
-- `HassQuestDbRuntime` and `_async_state_changed`. Home Assistant's state, its `json_dumps` and its
-- entity filter are arguments; log lines are not modelled.
pub mod Times
pub mod Conversion
pub mod Listener
pub mod Auth
mod Tests
use hass_questdb_writer.Prelude.{
  ℕ, suc, ◌+◌, ◌-◌, ◌*◌, Bool, true, false, not, Option, none, some, List, [], ◌∷◌, length, ltb,
  leb, if◌then◌else◌, keep, ℤ, pos, negsuc, Text, text_eq, Result, ok, err, codes,
}
use hass_questdb_writer.Prelude.Partial.{◌>>=◌}
use hass_questdb_writer.Spool.Types.{NewEvent}
use hass_questdb_writer.Event.{Codec, Envelope, EnvelopeError, post_init, to_spool_event}
use hass_questdb_writer.AttributeFilter.{AttributeFilter, passes}
use hass_questdb_writer.Worker.{Worker, Settings, Cause, submit}

-- A `timedelta` since the epoch: days, seconds below 86,400 and microseconds below 1,000,000.
pub record Delta : Type 0 where
  pub days : ℤ
  pub seconds : ℕ
  pub microseconds : ℕ

-- `a - b`
abbrev pub minus : ℕ → ℕ → ℤ
minus a b = if leb b a then pos (a - b) else negsuc (b - a - 1)

-- The nanoseconds of a `timedelta`.
unfoldable pub delta_ns : Delta → ℤ
delta_ns d =
    let rest : ℕ = d.seconds * 1000000000 + d.microseconds * 1000 in
    elim d.days [
      | pos n ↦ pos (n * 86400 * 1000000000 + rest)
      | negsuc n ↦ minus rest (suc n * 86400 * 1000000000)
    ]

-- `datetime_to_epoch_ns`; `none` stands for a datetime without a zone.
unfoldable pub datetime_to_epoch_ns : Option Delta → Option ℤ
unfolding delta_ns
datetime_to_epoch_ns none = none
datetime_to_epoch_ns (some d) = some (delta_ns d)

-- What the listener reads of a state of Home Assistant; attributes have values in `V`.
pub record State (V : Type 0) : Type 0 where
  pub entity_id : Text
  pub state : Text
  pub attributes : List (Text × V)
  pub last_changed : Option Delta
  pub last_updated : Option Delta
  pub context_id : Option Text

-- What a call of the listener meets: the codecs, the configuration and the next ID and time.
pub record Surroundings (V : Type 0) : Type 0 where
  pub json : Codec
  pub json_dumps : List (Text × V) → Option Text
  pub fnmatchcase : Text → Text → Bool
  pub entity_filter : Option (Text → Bool)
  pub attribute_filter : Option AttributeFilter
  pub settings : Settings
  pub describe : Cause → Text
  pub event_id : Text
  pub wall_time_ns : ℤ

-- `HassQuestDbRuntime`: its counters and its worker.
pub record Runtime : Type 0 where
  pub events_seen : ℕ
  pub events_accepted : ℕ
  pub events_without_new_state : ℕ
  pub events_skipped_unknown : ℕ
  pub events_excluded : ℕ
  pub attribute_entries_removed : ℕ
  pub conversion_errors : ℕ
  pub submission_rejections : ℕ
  pub worker : Worker

-- `STATE_UNKNOWN`
abbrev pub state_unknown : Text
state_unknown = codes "unknown"

abbrev pub is_excluded : Option (Text → Bool) → Text → Bool
is_excluded none entity_id = false
is_excluded (some entity_filter) entity_id = not (entity_filter entity_id)

abbrev pub without_error : Result EnvelopeError Envelope → Option Envelope
without_error (ok e) = some e
without_error (err x) = none

unfoldable pub after_submit : Bool × Worker → Runtime → Runtime
after_submit (true, w) r = record r { worker = w; events_accepted = r.events_accepted + 1 }
after_submit (false, w) r = record r {
  worker = w;
  submission_rejections = r.submission_rejections + 1;
}

abbrev pub seen : Runtime → Runtime
seen r = record r { events_seen = r.events_seen + 1 }

module _ {V : Type 0} where
  unfoldable pub kept_attributes : Surroundings V → List (Text × V) → List (Text × V)
  unfolding keep passes
  kept_attributes env attributes = elim env.attribute_filter [
    | none ↦ attributes
    | some f ↦ keep (λ p. passes env.fnmatchcase f p.0) attributes
  ]

  -- The envelope that the `try` block makes; `none` where it raises.
  unfoldable pub convert : Surroundings V → State V → Option Envelope
  unfolding kept_attributes datetime_to_epoch_ns post_init
  convert env s = do
    attributes_json ← env.json_dumps (kept_attributes env s.attributes)
    last_changed_ns ← datetime_to_epoch_ns s.last_changed
    last_updated_ns ← datetime_to_epoch_ns s.last_updated
    without_error (
        post_init env.json (record {
          event_id = env.event_id;
          entity_id = s.entity_id;
          state = s.state;
          attributes_json = attributes_json;
          ingested_at_ns = env.wall_time_ns;
          last_changed_ns = last_changed_ns;
          last_updated_ns = last_updated_ns;
          context_id = s.context_id;
        }))

  -- `self._service.submit(envelope)`, whose UnicodeEncodeError nothing catches.
  unfoldable pub after_spool_event :
      Surroundings V
      → Result EnvelopeError NewEvent
      → Runtime
      → Result EnvelopeError (Unit {0}) × Runtime
  unfolding submit after_submit
  after_spool_event env (err x) r = (err x, r)
  after_spool_event env (ok event) r =
      (ok tt, after_submit (submit env.settings env.describe event r.worker) r)

  unfoldable pub after_convert :
      Surroundings V → Option Envelope → Runtime → Result EnvelopeError (Unit {0}) × Runtime
  unfolding to_spool_event after_spool_event
  after_convert env none r = (ok tt, record r { conversion_errors = r.conversion_errors + 1 })
  after_convert env (some e) r = after_spool_event env (to_spool_event env.json e) r

  -- With the attributes that the filter removes counted.
  unfoldable pub count_removed : Surroundings V → State V → Runtime → Runtime
  unfolding kept_attributes
  count_removed env s r = record r {
    attribute_entries_removed =
        r.attribute_entries_removed
        + (length s.attributes - length (kept_attributes env s.attributes));
  }

  -- `_async_state_changed`
  unfoldable pub state_changed :
      Surroundings V → Option (State V) → Runtime → Result EnvelopeError (Unit {0}) × Runtime
  unfolding convert after_convert count_removed text_eq
  state_changed env none r =
      (ok tt, record (seen r) { events_without_new_state = r.events_without_new_state + 1 })
  state_changed env (some s) r =
      if is_excluded env.entity_filter s.entity_id
      then (ok tt, record (seen r) { events_excluded = r.events_excluded + 1 })
      else if text_eq s.state state_unknown
      then (ok tt, record (seen r) { events_skipped_unknown = r.events_skipped_unknown + 1 })
      else after_convert env (convert env s) (count_removed env s (seen r))
