-- ===== src/Ilp/Written.antt =====
-- The rows of custom_components/hass_questdb_writer/ilp.py as they are written.
use mathlib.Core.List.{flat_map, append-nil}
use mathlib.Core.Option as Options
use hass_questdb_writer.Prelude.{
  ◌≡◌, refl, sym, Option, none, some, List, [], ◌∷◌, ◌++◌, map, Text, codes, join, arith, Result,
  ok, err, Result-cases, ◌⊎◌,
}
use hass_questdb_writer.Ilp.{
  EncodingError, FieldValue, null, boolean, micros, int, float, string, require_name,
  escape_identifier, escape_string, encode_field, symbol_parts, field_parts, symbols_text,
}
use hass_questdb_writer.Ilp.Escapes.{
  ends_name, ends_string, hide, replace_identifier_lem, replace_string_lem,
}
use hass_questdb_writer.Ilp.Reader.{Value, quoted, bare, present_symbols, value_of, present_fields}

-- A name, a value and the two kinds of pairs as they are written.
abbrev pub name_text : Text → Text
name_text s = flat_map (hide ends_name) s

abbrev pub value_text : Value → Text
value_text (quoted s) = b'"' ∷ (flat_map (hide ends_string) s ++ b'"' ∷ [])
value_text (bare s) = s

abbrev pub symbol_text : Text × Text → Text
symbol_text p = name_text p.0 ++ (codes "=" ++ name_text p.1)

abbrev pub field_text : Text × Value → Text
field_text p = name_text p.0 ++ (codes "=" ++ value_text p.1)

-- Each with a comma before it.
unfoldable pub commas : List Text → Text
unfolding flat_map
commas = flat_map (λ t. b',' ∷ t)

pub join-cons : (t : Text) (ts : List Text) → join (codes ",") (t ∷ ts) ≡ t ++ commas ts
unfolding join commas flat_map
join-cons t [] = sym (append-nil t)
join-cons t (u ∷ ts) = rw (join-cons u ts) refl

pub symbols_text_lem : (ts : List Text) → symbols_text ts ≡ commas ts
unfolding symbols_text commas flat_map
symbols_text_lem [] = refl
symbols_text_lem (t ∷ ts) = rw (join-cons t ts) refl

-- How a call ends: with the value `a`, or with an exception.
abbrev pub Ends : {A : Type 0} → Result EncodingError A → A → Type 0
Ends {A} r a = (r ≡ ok a) ⊎ ((x : EncodingError) × (r ≡ err x))

pub escape_identifier-cases : (s : Text) → Ends (escape_identifier s) (name_text s)
unfolding escape_identifier require_name
escape_identifier-cases s = ground (arith, replace_identifier_lem s)

pub symbol_parts-ok :
    (symbols : List (Text × Option Text)) (parts : List Text)
    → symbol_parts symbols ≡ ok parts
    → parts ≡ map symbol_text (present_symbols symbols)
unfolding symbol_parts present_symbols
symbol_parts-ok [] parts e = ground (arith)
symbol_parts-ok ((key, none) ∷ symbols) parts e = symbol_parts-ok symbols parts e
symbol_parts-ok ((key, some value) ∷ symbols) parts e = grind (
  arith,
  e,
  escape_identifier-cases key,
  escape_identifier-cases value,
  Result-cases (symbol_parts symbols),
  symbol_parts-ok symbols,
)

pub encode_field-ok :
    (value : FieldValue) (o : Option Text)
    → encode_field value ≡ ok o
    → o ≡ Options.map value_text (value_of value)
unfolding encode_field value_of escape_string
encode_field-ok null o e = ground arith
encode_field-ok (boolean b) o e = ground arith
encode_field-ok (micros n) o e = ground arith
encode_field-ok (int n) o e = ground arith
encode_field-ok (float is_finite repr) o e = ground arith
encode_field-ok (string s) o e = ground (arith, replace_string_lem s)

pub field_parts-ok :
    (fields : List (Text × FieldValue)) (parts : List Text)
    → field_parts fields ≡ ok parts
    → parts ≡ map field_text (present_fields fields)
unfolding field_parts present_fields
field_parts-ok [] parts e = ground arith
field_parts-ok ((key, value) ∷ fields) parts e = grind (
  arith,
  e,
  Result-cases (encode_field value),
  encode_field-ok value,
  escape_identifier-cases key,
  Result-cases (field_parts fields),
  field_parts-ok fields,
)
