-- ===== src/Ilp.antt =====
-- The line protocol of custom_components/hass_questdb_writer/ilp.py. A float field is given by
-- `math.isfinite` and `repr` of its value. Message texts are not modelled.
pub mod Escapes
pub mod Reader
pub mod Written
pub mod Pieces
pub mod Rows
pub mod Encoded
mod Tests
use mathlib.Core.List.{flat_map}
use hass_questdb_writer.Prelude.{
  ℕ, suc, ◌+◌, ◌*◌, ◌-◌, ◌/◌, ◌%◌, ◌^◌, ◌≡◌, refl, Bool, true, false, ◌&&◌, ◌||◌, Option, none,
  some, List, [], ◌∷◌, ◌++◌, ltb, leb, ◌==◌, if◌then◌else◌, ℤ, pos, negsuc, Text, Bytes, is_empty,
  has_nul, Result, ok, err, codes, replace, join, integer, utf8,
}
use hass_questdb_writer.Prelude.Fallible.{◌>>=◌}

-- `IlpEncodingError`, by what raises it; the last is the codec's UnicodeEncodeError.
pub data EncodingError : Type 0 where
  empty_name nul_in_name nul_in_string timestamp_range integer_range float_not_finite no_fields :
      EncodingError
  surrogate : EncodingError

-- `FieldValue`
pub data FieldValue : Type 0 where
  null : FieldValue
  boolean : Bool → FieldValue
  micros : ℤ → FieldValue
  int : ℤ → FieldValue
  float : Bool → Text → FieldValue
  string : Text → FieldValue

-- `_require_name`
unfoldable pub require_name : Text → Result EncodingError Text
unfolding has_nul
require_name value =
    if is_empty value
    then err EncodingError.empty_name
    else if has_nul value
    then err EncodingError.nul_in_name
    else ok value

unfoldable pub replace_identifier : Text → Text
unfolding replace
replace_identifier value = replace b'\r' (codes "\\\r") (
    replace b'\n' (codes "\\\n") (
      replace b'=' (codes "\\=") (
        replace b',' (codes "\\,")
          (replace b' ' (codes "\\ ") (replace b'\\' (codes "\\\\") value)))))

-- `_escape_identifier`
unfoldable pub escape_identifier : Text → Result EncodingError Text
unfolding require_name replace_identifier
escape_identifier value = do name ← require_name value; ok (replace_identifier name)

unfoldable pub replace_string : Text → Text
unfolding replace
replace_string value = replace b'\r' (codes "\\\r") (
    replace b'\n' (codes "\\\n") (replace b'"' (codes "\\\"") (replace b'\\' (codes "\\\\") value)))

-- `_escape_string`
unfoldable pub escape_string : Text → Result EncodingError Text
unfolding has_nul replace_string
escape_string value =
    if has_nul value then err EncodingError.nul_in_string else ok (replace_string value)

-- `-(2**63) < value < 2**63`
abbrev pub in_field_range : ℤ → Bool
in_field_range (pos n) = ltb n (2 ^ 63)
in_field_range (negsuc n) = ltb (suc n) (2 ^ 63)

-- `_encode_field`
unfoldable pub encode_field : FieldValue → Result EncodingError (Option Text)
unfolding integer escape_string
encode_field null = ok none
encode_field (boolean value) = ok (some (if value then codes "true" else codes "false"))
encode_field (micros value) =
    if in_field_range value
    then ok (some (integer value ++ codes "t"))
    else err EncodingError.timestamp_range
encode_field (int value) =
    if in_field_range value
    then ok (some (integer value ++ codes "i"))
    else err EncodingError.integer_range
encode_field (float is_finite repr) =
    if is_finite then ok (some repr) else err EncodingError.float_not_finite
encode_field (string value) = do
  escaped ← escape_string value
  ok (some (codes "\"" ++ (escaped ++ codes "\"")))

-- The loop over `symbols`.
unfoldable pub symbol_parts : List (Text × Option Text) → Result EncodingError (List Text)
unfolding escape_identifier
symbol_parts [] = ok []
symbol_parts ((key, none) ∷ symbols) = symbol_parts symbols
symbol_parts ((key, some value) ∷ symbols) = do
  name ← escape_identifier key
  text ← escape_identifier value
  parts ← symbol_parts symbols
  ok ((name ++ (codes "=" ++ text)) ∷ parts)

abbrev pub field_part :
    Text → Option Text → Result EncodingError (List Text) → Result EncodingError (List Text)
field_part key none rest = rest
field_part key (some encoded) rest = do
  name ← escape_identifier key
  parts ← rest
  ok ((name ++ (codes "=" ++ encoded)) ∷ parts)

-- The loop over `fields`.
unfoldable pub field_parts : List (Text × FieldValue) → Result EncodingError (List Text)
unfolding encode_field escape_identifier
field_parts [] = ok []
field_parts ((key, value) ∷ fields) = do
  encoded ← encode_field value
  field_part key encoded (field_parts fields)

unfoldable pub symbols_text : List Text → Text
unfolding join
symbols_text parts = if is_empty parts then [] else codes "," ++ join (codes ",") parts

abbrev pub line : Text → List Text → List Text → ℤ → Text
line measurement symbol_texts field_texts timestamp_ns =
    measurement
    ++ (symbols_text symbol_texts
        ++ (codes " "
            ++ (join (codes ",") field_texts
                ++ (codes " " ++ (integer timestamp_ns ++ codes "\n")))))

-- The text of `encode_row`, before its encoding.
unfoldable pub row_text :
    Text → List (Text × Option Text) → List (Text × FieldValue) → ℤ → Result EncodingError Text
unfolding escape_identifier symbol_parts field_parts symbols_text join integer
row_text table symbols fields timestamp_ns = do
  measurement ← escape_identifier table
  symbol_texts ← symbol_parts symbols
  field_texts ← field_parts fields
  if is_empty field_texts
      then err EncodingError.no_fields
      else ok (line measurement symbol_texts field_texts timestamp_ns)

abbrev pub or_surrogate : Option Bytes → Result EncodingError Bytes
or_surrogate (some bytes) = ok bytes
or_surrogate none = err surrogate

-- `encode_row`
unfoldable pub encode_row :
    Text → List (Text × Option Text) → List (Text × FieldValue) → ℤ → Result EncodingError Bytes
unfolding row_text utf8
encode_row table symbols fields timestamp_ns = do
  text ← row_text table symbols fields timestamp_ns
  or_surrogate (utf8 text)
