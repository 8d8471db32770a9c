-- ===== src/Worker/BatchTests.antt =====
-- A batch of one event of custom_components/hass_questdb_writer/event.py.
use hass_questdb_writer.Prelude.{
  ◌≡◌, ◌≢◌, refl, ap, true, none, [], ◌∷◌, Text, Bytes, pos, codes, Result, ok, err,
}
use hass_questdb_writer.Spool.Types.{Row}
use hass_questdb_writer.Transport.{value_error, send_batch}
use hass_questdb_writer.Event.{Envelope, EnvelopeError, from_bytes, to_ilp}
use hass_questdb_writer.Ilp.{EncodingError}
use hass_questdb_writer.Event.Tests.{one_event_json, light_on_text, light_on_row_text}
use hass_questdb_writer.Worker.Deliver.{BuiltBatch, built, collect}
use hass_questdb_writer.Worker.Batch.{IsBatch, collect-IsBatch, collect-send_batch}

-- The codec of `_build_batch`, with empty texts for its exceptions.
abbrev row_or : Result EncodingError Bytes → Result Text Bytes
row_or (ok row) = ok row
row_or (err x) = err []

abbrev row_of : Result EnvelopeError Envelope → Result Text Bytes
row_of (ok e) = row_or (to_ilp (codes "hass") e)
row_of (err x) = err []

abbrev encode : Bytes → Result Text Bytes
encode payload = row_of (from_bytes one_event_json payload)

row_or-ok : (r : Result EncodingError Bytes) (row : Bytes) → row_or r ≡ ok row → r ≡ ok row
row_or-ok (ok b) row h = let w : b ≡ row = cc (h) in ap ok w
row_or-ok (err x) row h = absurd (cc (h))

row_of-ok :
    (r : Result EnvelopeError Envelope) (row : Bytes)
    → row_of r ≡ ok row
    → (e : Envelope) × (to_ilp (codes "hass") e ≡ ok row)
row_of-ok (ok e) row h = (e, row_or-ok (to_ilp (codes "hass") e) row h)
row_of-ok (err x) row h = absurd (cc (h))

abbrev queued : Row
queued = record {
  sequence = 7;
  event_id = codes "e1";
  payload = light_on_text;
  created_ns = pos 3000;
  attempt_count = 0;
  last_error = none;
  delivery_uncertain = true;
}

abbrev one_batch : BuiltBatch
one_batch = record { payload = light_on_row_text; sequences = 7 ∷ []; uncertain_sequences = 7 ∷ [] }

one_built : collect 200 encode true 0 (queued ∷ []) ≡ built one_batch
unfolding collect from_bytes to_ilp one_event_json
one_built = refl

collect-IsBatch_example : IsBatch 200 encode 0 (queued ∷ []) one_batch
collect-IsBatch_example = collect-IsBatch 200 encode (queued ∷ []) one_batch one_built

collect-send_batch_example :
    (send_batch light_on_row_text none (record { connected = true; closed = 0 })).0
    ≢ err value_error
collect-send_batch_example =
    collect-send_batch 200 encode (codes "hass") (queued ∷ []) one_batch none
      (record { connected = true; closed = 0 })
      (λ p row h. row_of-ok (from_bytes one_event_json p) row h) one_built refl
