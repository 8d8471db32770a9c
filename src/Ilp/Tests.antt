-- ===== src/Ilp/Tests.antt =====
-- Runs of the encoder of custom_components/hass_questdb_writer/ilp.py at concrete rows.
use mathlib.Core.List.{flat_map}
use hass_questdb_writer.Prelude.{
  ◌≡◌, refl, pos, negsuc, none, some, [], ◌∷◌, ok, codes, Text, Option, List, Bytes, utf8, integer,
}
use hass_questdb_writer.Ilp.{
  FieldValue, int, null, string, row_text, encode_row, replace_identifier,
}
use hass_questdb_writer.Ilp.Escapes.{hide, ends_name, replace_identifier_lem}
use hass_questdb_writer.Ilp.Reader.{read_row, present_symbols, present_fields, quoted, bare}
use hass_questdb_writer.Ilp.Encoded.{encode_row-read_row}

a_row :
    row_text
      (codes "h a")
      ((codes "id", some (codes "a,b")) ∷ (codes "x", none) ∷ [])
      ((codes "n", int (negsuc 4)) ∷ (codes "s", string (codes "q\"")) ∷ [])
      (pos 12)
    ≡ ok (codes "h\\ a,id=a\\,b n=-5i,s=\"q\\\"\" 12\n")
unfolding row_text
a_row = refl

a_reading :
    read_row (codes "h\\ a,id=a\\,b n=-5i,s=\"q\\\"\" 12\n")
    ≡ some (record {
      table = codes "h a";
      symbols = (codes "id", codes "a,b") ∷ [];
      fields = (codes "n", bare (codes "-5i")) ∷ (codes "s", quoted (codes "q\"")) ∷ [];
      timestamp = codes "12";
    })
unfolding read_row
a_reading = refl

abbrev some_symbols : List (Text × Option Text)
some_symbols = (codes "id", some (codes "a,b")) ∷ (codes "x", none) ∷ []

abbrev some_fields : List (Text × FieldValue)
some_fields =
    (codes "n", int (negsuc 4)) ∷ (codes "o", null) ∷ (codes "s", string (codes "q\"")) ∷ []

abbrev some_bytes : Bytes
some_bytes = codes "h\\ a,id=a\\,b n=-5i,s=\"q\\\"\" 12\n"

some_encoding : encode_row (codes "h a") some_symbols some_fields (pos 12) ≡ ok some_bytes
unfolding encode_row
some_encoding = refl

encode_row-read_row_example :
    (text : Text) × (utf8 text ≡ some some_bytes)
    × (read_row text
        ≡ some (record {
          table = codes "h a";
          symbols = present_symbols some_symbols;
          fields = present_fields some_fields;
          timestamp = integer (pos 12);
        }))
encode_row-read_row_example =
    encode_row-read_row (codes "h a") some_symbols some_fields (pos 12) some_bytes some_encoding
      (tt, (tt, (tt, tt)))

replace_identifier_lem_example :
    replace_identifier (codes "a b") ≡ flat_map (hide ends_name) (codes "a b")
replace_identifier_lem_example = replace_identifier_lem (codes "a b")
