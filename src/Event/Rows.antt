-- ===== src/Event/Rows.antt =====
-- Rows of valid envelopes of custom_components/hass_questdb_writer/event.py.
use hass_questdb_writer.Prelude.{
  ℕ, ◌≡◌, refl, ◌⊎◌, inl, inr, Bool, true, false, Option, none, some, List, [], ◌∷◌, ◌++◌, any_of,
  ℤ, pos, negsuc, Text, Bytes, is_empty, has_nul, Result, ok, err, Result-cases, Option-cases,
  Bool-cases, codes, utf8, All, integer, arith,
}
use hass_questdb_writer.Ilp.{
  surrogate, FieldValue, micros, require_name, replace_identifier, replace_string,
  escape_identifier, escape_string, in_field_range, encode_field, symbol_parts, field_parts,
  row_text, encode_row, line,
}
use hass_questdb_writer.Ilp.Encoded.{encode_row-newline}
use hass_questdb_writer.Transport.{ends_with_newline}
use hass_questdb_writer.Event.{
  Codec, Envelope, check_string, timestamp_ns, partition, has_both, is_object, check_context,
  post_init, domain, to_micros, optional_string, to_ilp,
}

abbrev IsOk : {E A : Type 0} → Result E A → Type 0
IsOk {E} {A} r = (a : A) × (r ≡ ok a)

-- What `__post_init__` makes sure of, as far as rows depend on it.
valid-parts :
    (json : Codec) (e : Envelope)
    → post_init json e ≡ ok e
    → (check_string e.event_id false ≡ ok tt)
      × (check_string e.entity_id false ≡ ok tt)
      × (has_both (partition b'.' e.entity_id) ≡ true)
      × (check_string e.state true ≡ ok tt)
      × (check_string e.attributes_json false ≡ ok tt)
      × (timestamp_ns e.ingested_at_ns ≡ ok tt)
      × (timestamp_ns e.last_changed_ns ≡ ok tt)
      × (timestamp_ns e.last_updated_ns ≡ ok tt)
      × (check_context e.context_id ≡ ok tt)
unfolding post_init
valid-parts json e h = grind (
  arith,
  h,
  Result-cases (check_string e.event_id false),
  Result-cases (check_string e.entity_id false),
  Bool-cases (has_both (partition b'.' e.entity_id)),
  Result-cases (check_string e.state true),
  Result-cases (check_string e.attributes_json false),
  Bool-cases (is_object (json.loads e.attributes_json)),
  Result-cases (timestamp_ns e.ingested_at_ns),
  Result-cases (timestamp_ns e.last_changed_ns),
  Result-cases (timestamp_ns e.last_updated_ns),
  Result-cases (check_context e.context_id),
)

check_string-nul : (s : Text) (b : Bool) → check_string s b ≡ ok tt → has_nul s ≡ false
unfolding check_string
check_string-nul s b h = ground arith

escape_identifier-name :
    (s : Text)
    → is_empty s ≡ false
    → has_nul s ≡ false
    → escape_identifier s ≡ ok (replace_identifier s)
unfolding escape_identifier require_name
escape_identifier-name s h h' = rw (h, h') refl

check_string-name :
    (s : Text) → check_string s false ≡ ok tt → escape_identifier s ≡ ok (replace_identifier s)
unfolding check_string
check_string-name s h = escape_identifier-name s (ground (arith, h)) (check_string-nul s false h)

has_both-full : (p : Text × Option Text) → has_both p ≡ true → is_empty p.0 ≡ false
has_both-full (s, none) h = absurd (cc (h))
has_both-full (s, some t) h = ground (arith, h)

partition-nul : (c : ℕ) (s : Text) → has_nul s ≡ false → has_nul (partition c s).0 ≡ false
unfolding has_nul any_of partition
partition-nul c [] h = refl
partition-nul c (d ∷ s) h = ground (arith, partition-nul c s)

domain-name :
    (e : Envelope)
    → has_both (partition b'.' e.entity_id) ≡ true
    → has_nul e.entity_id ≡ false
    → escape_identifier (domain e) ≡ ok (replace_identifier (domain e))
unfolding domain
domain-name e h h' =
    escape_identifier-name (domain e) (has_both-full (partition b'.' e.entity_id) h)
      (partition-nul b'.' e.entity_id h')

abbrev quote : Text → Text
quote s = codes "\"" ++ (replace_string s ++ codes "\"")

abbrev later_fields : Envelope → List (Text × FieldValue)
later_fields e =
    (codes "state", FieldValue.string e.state)
    ∷ (codes "attributes", FieldValue.string e.attributes_json)
    ∷ (codes "ingested_at", micros (to_micros e.ingested_at_ns))
    ∷ (codes "last_changed", micros (to_micros e.last_changed_ns))
    ∷ (codes "context_id", optional_string e.context_id)
    ∷ []

string_field :
    (s : Text) → has_nul s ≡ false → encode_field (FieldValue.string s) ≡ ok (some (quote s))
unfolding encode_field escape_string
string_field s h = rw h refl

timestamp_field : (n : ℤ) → timestamp_ns n ≡ ok tt → in_field_range (to_micros n) ≡ true
unfolding timestamp_ns
timestamp_field (pos n) h = ground (arith, h)
timestamp_field (negsuc n) h = absurd (cc (h))

optional_string_field :
    (o : Option Text) → check_context o ≡ ok tt → IsOk (encode_field (optional_string o))
unfolding check_context encode_field
optional_string_field none h = (none, refl)
optional_string_field (some s) h = (some (quote s), string_field s (check_string-nul s false h))

-- A field that is there starts the list of fields.
first_field :
    (key : Text) (value : FieldValue) (text name : Text) (fields : List (Text × FieldValue))
    → encode_field value ≡ ok (some text)
    → escape_identifier key ≡ ok name
    → IsOk (field_parts fields)
    → (parts : List Text) × (field_parts ((key, value) ∷ fields)
        ≡ ok ((name ++ (codes "=" ++ text)) ∷ parts))
unfolding field_parts
first_field key value text name fields h h' (parts, g) = (parts, rw (h, h', g) refl)

fields_end :
    (fields : List (Text × FieldValue))
    → All (λ f. IsOk (encode_field f.1) × IsOk (escape_identifier f.0)) fields
    → IsOk (field_parts fields)
unfolding field_parts
fields_end [] h = ([], refl)
fields_end ((key, value) ∷ fields) (((none, h), w), rest) =
    let (parts, g) = fields_end fields rest in (parts, rw (h, g) refl)
fields_end ((key, value) ∷ fields) (((some text, h), (name, h')), rest) =
    let (parts, g) = fields_end fields rest in
    ((name ++ (codes "=" ++ text)) ∷ parts, rw (h, h', g) refl)

micros_field : (n : ℤ) → timestamp_ns n ≡ ok tt → IsOk (encode_field (micros (to_micros n)))
unfolding encode_field
micros_field n h = (some (integer (to_micros n) ++ codes "t"), rw (timestamp_field n h) refl)

or_surrogate_ends :
    (table : Text) (symbols : List (Text × Option Text)) (fields : List (Text × FieldValue)) (n : ℤ)
    → IsOk (row_text table symbols fields n)
    → IsOk (encode_row table symbols fields n) ⊎ (encode_row table symbols fields n ≡ err surrogate)
unfolding encode_row
or_surrogate_ends table symbols fields n (text, h) = elim (Option-cases (utf8 text)) [
  | inl f ↦ inr (rw (h, f) refl)
  | inr (b, f) ↦ inl (b, rw (h, f) refl)
]

row_ends :
    (table : Text) (symbols : List (Text × Option Text)) (fields : List (Text × FieldValue)) (n : ℤ)
    (part : Text) (parts : List Text)
    → is_empty table ≡ false
    → has_nul table ≡ false
    → IsOk (symbol_parts symbols)
    → field_parts fields ≡ ok (part ∷ parts)
    → IsOk (row_text table symbols fields n)
unfolding row_text
row_ends table symbols fields n part parts full clean (symbol_texts, h) h' = (
  line (replace_identifier table) symbol_texts (part ∷ parts) n,
  rw (escape_identifier-name table full clean, h, h') refl,
)

abbrev symbols_of : Envelope → List (Text × Option Text)
symbols_of e = (codes "entity_id", some e.entity_id) ∷ (codes "domain", some (domain e)) ∷ []

abbrev fields_of : Envelope → List (Text × FieldValue)
fields_of e = (codes "event_id", FieldValue.string e.event_id) ∷ later_fields e

symbols_end :
    (e : Envelope)
    → check_string e.entity_id false ≡ ok tt
    → has_both (partition b'.' e.entity_id) ≡ true
    → IsOk (symbol_parts (symbols_of e))
unfolding symbol_parts escape_identifier require_name
symbols_end e h h' = (
  (codes "entity_id" ++ (codes "=" ++ replace_identifier e.entity_id))
      ∷ (codes "domain" ++ (codes "=" ++ replace_identifier (domain e)))
      ∷ [],
  rw (check_string-name e.entity_id h, domain-name e h' (check_string-nul e.entity_id false h))
      refl,
)

later_end :
    (e : Envelope)
    → check_string e.state true ≡ ok tt
    → check_string e.attributes_json false ≡ ok tt
    → timestamp_ns e.ingested_at_ns ≡ ok tt
    → timestamp_ns e.last_changed_ns ≡ ok tt
    → check_context e.context_id ≡ ok tt
    → IsOk (field_parts (later_fields e))
unfolding escape_identifier require_name field_parts
later_end e state attributes ingested changed context = fields_end (later_fields e) (
  (
    (some (quote e.state), string_field e.state (check_string-nul e.state true state)),
    (codes "state", refl),
  ),
  (
    (
      (
        some (quote e.attributes_json),
        string_field e.attributes_json (check_string-nul e.attributes_json false attributes),
      ),
      (codes "attributes", refl),
    ),
    (
      (micros_field e.ingested_at_ns ingested, (codes "ingested_at", refl)),
      (
        (micros_field e.last_changed_ns changed, (codes "last_changed", refl)),
        ((optional_string_field e.context_id context, (codes "context_id", refl)), tt),
      ),
    ),
  ),
)

-- A row of a valid envelope, for a table that has a name, is encoded, unless its text holds a
-- surrogate, which UTF-8 cannot write.
pub to_ilp_lem :
    (json : Codec) (e : Envelope) (table : Text)
    → post_init json e ≡ ok e
    → is_empty table ≡ false
    → has_nul table ≡ false
    → ((b : Bytes) × (to_ilp table e ≡ ok b)) ⊎ (to_ilp table e ≡ err surrogate)
unfolding to_ilp escape_identifier require_name
to_ilp_lem json e table valid full clean =
    let (id, entity, both, state, attributes, ingested, changed, updated, context) =
      valid-parts json e valid in
    let (parts, h) =
      first_field (codes "event_id") (FieldValue.string e.event_id) (quote e.event_id)
        (codes "event_id") (later_fields e)
        (string_field e.event_id (check_string-nul e.event_id false id)) refl
        (later_end e state attributes ingested changed context) in
    or_surrogate_ends table (symbols_of e) (fields_of e) e.last_updated_ns (
      row_ends table (symbols_of e) (fields_of e) e.last_updated_ns
        (codes "event_id" ++ (codes "=" ++ quote e.event_id)) parts full clean
        (symbols_end e entity both) h)

-- Every row of an event ends with a newline.
pub to_ilp-newline :
    (table : Text) (e : Envelope) (row : Bytes)
    → to_ilp table e ≡ ok row
    → ends_with_newline row ≡ true
unfolding to_ilp
to_ilp-newline table e row h =
    encode_row-newline table (symbols_of e) (fields_of e) e.last_updated_ns row h
