-- ===== src/Event/Tests.antt =====
-- Runs of custom_components/hass_questdb_writer/event.py at one event, with a codec of JSON that
-- knows the texts of this event.
use hass_questdb_writer.Prelude.{
  ◌≡◌, refl, ◌⊎◌, none, some, [], ◌++◌, Text, Bytes, pos, codes, ok, err, text_eq, if◌then◌else◌,
  arith,
}
use hass_questdb_writer.Ilp.{surrogate}
use hass_questdb_writer.Event.{
  Envelope, Codec, object, post_init, to_bytes, from_bytes, to_ilp, asdict,
}
use hass_questdb_writer.Event.RoundTrip.{document, from_bytes-to_bytes}
use hass_questdb_writer.Event.Rows.{to_ilp_lem}

abbrev pub light_on : Envelope
light_on = record {
  event_id = codes "e1";
  entity_id = codes "light.desk";
  state = codes "on";
  attributes_json = codes "{}";
  ingested_at_ns = pos 3000;
  last_changed_ns = pos 1000;
  last_updated_ns = pos 2000;
  context_id = none;
}

abbrev pub light_on_text : Text
light_on_text = codes "{\"event_id\":\"e1\",\"version\":2}"

unfoldable pub one_event_json : Codec
unfolding text_eq asdict
one_event_json = record {
  dumps = λ d. light_on_text;
  loads = λ t.
      if text_eq t light_on_text
      then some (object (document light_on))
      else if text_eq t (codes "{}")
      then some (object [])
      else none;
}

from_bytes-to_bytes_example : from_bytes one_event_json light_on_text ≡ ok light_on
unfolding post_init to_bytes asdict text_eq one_event_json
from_bytes-to_bytes_example =
    from_bytes-to_bytes one_event_json light_on light_on_text refl
      (document light_on, refl, λ key. refl) (ground arith) refl refl

to_ilp_lem_example :
    ((b : Bytes) × (to_ilp (codes "hass") light_on ≡ ok b))
    ⊎ (to_ilp (codes "hass") light_on ≡ err surrogate)
unfolding post_init one_event_json text_eq
to_ilp_lem_example = to_ilp_lem one_event_json light_on (codes "hass") refl refl refl

abbrev pub light_on_row_text : Text
light_on_row_text =
    codes "hass,entity_id=light.desk,domain=light event_id=\"e1\",state=\"on\""
    ++ codes ",attributes=\"{}\",ingested_at=3t,last_changed=1t 2000\n"

light_on_row : to_ilp (codes "hass") light_on ≡ ok light_on_row_text
unfolding to_ilp
light_on_row = refl
