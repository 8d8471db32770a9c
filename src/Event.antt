-- ===== src/Event.antt =====
-- The event envelope of custom_components/hass_questdb_writer/event.py. `json.dumps` and
-- `json.loads` are arguments. Message texts and the type checks of fields that have a type here are
-- not modelled.
pub mod RoundTrip
pub mod Rows
pub mod Tests
use hass_questdb_writer.Prelude.{
  ℕ, suc, ◌-◌, ◌/◌, ◌^◌, ◌≡◌, Bool, true, false, not, ◌&&◌, ◌||◌, Option, none, some, List, [], ◌∷◌,
  ◌++◌, leb, ltb, ◌==◌, if◌then◌else◌, any_of, keep, ℤ, pos, negsuc, Text, Bytes, text_eq, is_empty,
  has_nul, Result, ok, err, codes, utf8, utf8_decode,
}
use hass_questdb_writer.Prelude.Fallible.{◌>>=◌}
use hass_questdb_writer.Ilp.{EncodingError, FieldValue, micros, encode_row}
use hass_questdb_writer.Spool.Types.{NewEvent}

-- A value of a JSON document, as deep as the code looks: a float is its number where it is
-- integral.
pub data Scalar : Type 0 where
  null : Scalar
  boolean : Bool → Scalar
  number : ℤ → Scalar
  real : Option ℤ → Scalar
  string : Text → Scalar
  structure : Scalar

abbrev pub Document : Type 0
Document = List (Text × Scalar)

-- What `json.loads` returns: a dict, or something else.
pub data Json : Type 0 where
  object : Document → Json
  other : Json

-- `json.dumps` and `json.loads`; `loads` answers `none` where it raises.
pub record Codec : Type 0 where
  pub dumps : Document → Text
  pub loads : Text → Option Json

-- `EventEnvelopeError`, by what raises it; `unencodable` is the UnicodeEncodeError of `to_bytes`.
pub data EnvelopeError : Type 0 where
  empty_text nul_in_text bad_entity_id bad_attributes bad_timestamp : EnvelopeError
  empty_payload bad_json no_object bad_version bad_fields bad_type unencodable : EnvelopeError

-- `EventEnvelope`
pub record Envelope : Type 0 where
  pub event_id : Text
  pub entity_id : Text
  pub state : Text
  pub attributes_json : Text
  pub ingested_at_ns : ℤ
  pub last_changed_ns : ℤ
  pub last_updated_ns : ℤ
  pub context_id : Option Text

-- `EVENT_PAYLOAD_VERSION`
abbrev pub event_payload_version : ℕ
event_payload_version = 2

-- `_SIGNED_64_MAX`
abbrev pub signed_64_max : ℕ
signed_64_max = 2 ^ 63 - 1

-- `_string`
unfoldable pub check_string : Text → Bool → Result EnvelopeError (Unit {0})
unfolding has_nul
check_string value allow_empty =
    if not allow_empty && is_empty value
    then err EnvelopeError.empty_text
    else if has_nul value
    then err EnvelopeError.nul_in_text
    else ok tt

-- `_timestamp_ns`
unfoldable pub timestamp_ns : ℤ → Result EnvelopeError (Unit {0})
timestamp_ns (pos n) = if leb n signed_64_max then ok tt else err EnvelopeError.bad_timestamp
timestamp_ns (negsuc n) = err EnvelopeError.bad_timestamp

abbrev pub keep_going : ℕ → Text × Option Text → Text × Option Text
keep_going c (s, rest) = (c ∷ s, rest)

-- `s.partition(c)`: the text before the first `c`, and the text behind it, if there is one.
unfoldable pub partition : ℕ → Text → Text × Option Text
partition c [] = ([], none)
partition c (d ∷ s) = let rest = partition c s in if d == c then ([], some s) else keep_going d rest

abbrev pub has_both : Text × Option Text → Bool
has_both (domain, none) = false
has_both (domain, some object_id) = not (is_empty domain) && not (is_empty object_id)

abbrev pub is_object : Option Json → Bool
is_object (some (object d)) = true
is_object _ = false

unfoldable pub check_context : Option Text → Result EnvelopeError (Unit {0})
unfolding check_string
check_context none = ok tt
check_context (some c) = check_string c false

abbrev pub check : Bool → EnvelopeError → Result EnvelopeError (Unit {0})
check true e = ok tt
check false e = err e

-- `__post_init__`
unfoldable pub post_init : Codec → Envelope → Result EnvelopeError Envelope
unfolding check_string timestamp_ns partition check_context
post_init json e = do
  _ ← check_string e.event_id false
  _ ← check_string e.entity_id false
  _ ← check (has_both (partition b'.' e.entity_id)) EnvelopeError.bad_entity_id
  _ ← check_string e.state true
  _ ← check_string e.attributes_json false
  _ ← check (is_object (json.loads e.attributes_json)) EnvelopeError.bad_attributes
  _ ← timestamp_ns e.ingested_at_ns
  _ ← timestamp_ns e.last_changed_ns
  _ ← timestamp_ns e.last_updated_ns
  _ ← check_context e.context_id
  ok e

-- `domain`
unfoldable pub domain : Envelope → Text
unfolding partition
domain e = (partition b'.' e.entity_id).0

abbrev pub optional_text : Option Text → Scalar
optional_text none = Scalar.null
optional_text (some s) = Scalar.string s

-- `asdict(self)`
unfoldable pub asdict : Envelope → Document
asdict e =
    (codes "event_id", Scalar.string e.event_id)
    ∷ (codes "entity_id", Scalar.string e.entity_id)
    ∷ (codes "state", Scalar.string e.state)
    ∷ (codes "attributes_json", Scalar.string e.attributes_json)
    ∷ (codes "ingested_at_ns", Scalar.number e.ingested_at_ns)
    ∷ (codes "last_changed_ns", Scalar.number e.last_changed_ns)
    ∷ (codes "last_updated_ns", Scalar.number e.last_updated_ns)
    ∷ (codes "context_id", optional_text e.context_id)
    ∷ []

abbrev pub or_unencodable : Option Bytes → Result EnvelopeError Bytes
or_unencodable none = err EnvelopeError.unencodable
or_unencodable (some b) = ok b

-- `to_bytes`
unfoldable pub to_bytes : Codec → Envelope → Result EnvelopeError Bytes
unfolding asdict utf8
to_bytes json e =
    or_unencodable
      (utf8 (json.dumps ((codes "version", Scalar.number (pos event_payload_version)) ∷ asdict e)))

-- `document[key]` of a dict, whose keys differ.
unfoldable pub lookup : Text → Document → Option Scalar
unfolding text_eq
lookup key [] = none
lookup key ((k, v) ∷ d) = if text_eq key k then some v else lookup key d

-- `document.pop(key, None)`, without its result
unfoldable pub remove : Text → Document → Document
unfolding text_eq keep
remove key = keep (λ p. not (text_eq p.0 key))

abbrev pub has_key : Document → Text → Bool
has_key d key = elim (lookup key d) [ none ↦ false | some _ ↦ true ]

abbrev pub is_version : Option Scalar → Bool
is_version (some (number (pos n))) = n == event_payload_version
is_version (some (real (some (pos n)))) = n == event_payload_version
is_version _ = false

-- `cls.__dataclass_fields__`
abbrev pub field_names : List Text
field_names =
    codes "event_id"
    ∷ codes "entity_id"
    ∷ codes "state"
    ∷ codes "attributes_json"
    ∷ codes "ingested_at_ns"
    ∷ codes "last_changed_ns"
    ∷ codes "last_updated_ns"
    ∷ codes "context_id"
    ∷ []

-- `set(document) == expected`
unfoldable pub has_fields : Document → Bool
unfolding lookup any_of text_eq
has_fields d =
    not (any_of (λ key. not (has_key d key)) field_names)
    && not (any_of (λ p. not (any_of (text_eq p.0) field_names)) d)

abbrev pub text_field : Option Scalar → Result EnvelopeError Text
text_field (some (string s)) = ok s
text_field _ = err EnvelopeError.bad_type

abbrev pub number_field : Option Scalar → Result EnvelopeError ℤ
number_field (some (number n)) = ok n
number_field _ = err EnvelopeError.bad_type

abbrev pub optional_field : Option Scalar → Result EnvelopeError (Option Text)
optional_field (some null) = ok none
optional_field (some (string s)) = ok (some s)
optional_field _ = err EnvelopeError.bad_type

-- `cls(**document)`, whose type checks come first here: the class of the error is the same.
unfoldable pub construct : Codec → Document → Result EnvelopeError Envelope
unfolding lookup post_init
construct json d = do
  event_id ← text_field (lookup (codes "event_id") d)
  entity_id ← text_field (lookup (codes "entity_id") d)
  state ← text_field (lookup (codes "state") d)
  attributes_json ← text_field (lookup (codes "attributes_json") d)
  ingested_at_ns ← number_field (lookup (codes "ingested_at_ns") d)
  last_changed_ns ← number_field (lookup (codes "last_changed_ns") d)
  last_updated_ns ← number_field (lookup (codes "last_updated_ns") d)
  context_id ← optional_field (lookup (codes "context_id") d)
  post_init json (record {
    event_id = event_id;
    entity_id = entity_id;
    state = state;
    attributes_json = attributes_json;
    ingested_at_ns = ingested_at_ns;
    last_changed_ns = last_changed_ns;
    last_updated_ns = last_updated_ns;
    context_id = context_id;
  })

unfoldable pub restore : Codec → Option Json → Result EnvelopeError Envelope
unfolding remove has_fields construct lookup
restore json none = err EnvelopeError.bad_json
restore json (some other) = err EnvelopeError.no_object
restore json (some (object d)) =
    if not (is_version (lookup (codes "version") d))
    then err EnvelopeError.bad_version
    else if not (has_fields (remove (codes "version") d))
    then err EnvelopeError.bad_fields
    else construct json (remove (codes "version") d)

unfoldable pub loads_bytes : Codec → Bytes → Option Json
unfolding utf8_decode
loads_bytes json payload = elim (utf8_decode payload) [ none ↦ none | some s ↦ json.loads s ]

-- `from_bytes`
unfoldable pub from_bytes : Codec → Bytes → Result EnvelopeError Envelope
unfolding loads_bytes restore
from_bytes json payload =
    if is_empty payload
    then err EnvelopeError.empty_payload
    else restore json (loads_bytes json payload)

-- `to_spool_event`
unfoldable pub to_spool_event : Codec → Envelope → Result EnvelopeError NewEvent
unfolding to_bytes
to_spool_event json e = do
  payload ← to_bytes json e
  ok (record { event_id = e.event_id; payload = payload; created_ns = e.ingested_at_ns })

-- `n // 1_000`, rounded down
abbrev pub to_micros : ℤ → ℤ
to_micros (pos n) = pos (n / 1000)
to_micros (negsuc n) = negsuc (n / 1000)

abbrev pub optional_string : Option Text → FieldValue
optional_string none = FieldValue.null
optional_string (some s) = FieldValue.string s

-- `to_ilp`
unfoldable pub to_ilp : Text → Envelope → Result EncodingError Bytes
unfolding encode_row domain
to_ilp table e =
    encode_row table
      ((codes "entity_id", some e.entity_id) ∷ (codes "domain", some (domain e)) ∷ [])
      ((codes "event_id", FieldValue.string e.event_id)
        ∷ (codes "state", FieldValue.string e.state)
        ∷ (codes "attributes", FieldValue.string e.attributes_json)
        ∷ (codes "ingested_at", micros (to_micros e.ingested_at_ns))
        ∷ (codes "last_changed", micros (to_micros e.last_changed_ns))
        ∷ (codes "context_id", optional_string e.context_id)
        ∷ [])
      e.last_updated_ns
