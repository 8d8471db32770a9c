-- ===== src/Ilp/Reader.antt =====
-- A reader of the rows that custom_components/hass_questdb_writer/ilp.py writes: QuestDB's line
-- protocol as far as the writer uses it.
use hass_questdb_writer.Prelude.{
  ℕ, zero, suc, Bool, true, false, not, ◌||◌, Option, none, some, List, [], ◌∷◌, ◌++◌, ◌≡◌, length,
  ◌==◌, if◌then◌else◌, Text, is_empty, codes, integer, All,
}
use hass_questdb_writer.Prelude.Partial.{◌>>=◌}
use hass_questdb_writer.Ilp.{FieldValue, null, boolean, micros, int, float, string}
use hass_questdb_writer.Ilp.Escapes.{read_until, ends_name, ends_string}

-- A field value as it stands in a row.
pub data Value : Type 0 where
  quoted bare : Text → Value

pub record Row : Type 0 where
  pub table : Text
  pub symbols : List (Text × Text)
  pub fields : List (Text × Value)
  pub timestamp : Text

unfoldable pub expect : ℕ → Text → Option Text
expect c [] = none
expect c (d ∷ s) = if d == c then some s else none

unfoldable pub read_name : Text → Option (Text × Text)
unfolding read_until ends_name
read_name = read_until ends_name false

unfoldable pub read_value : Text → Option (Value × Text)
unfolding read_name read_until ends_string expect
read_value [] = none
read_value (c ∷ s) =
    let after_quote : Option (Value × Text) = (do
      (text, rest) ← read_until ends_string false s
      rest' ← expect b'"' rest
      some (quoted text, rest')) in
    let unquoted : Option (Value × Text) = (do
      (text, rest) ← read_name (c ∷ s)
      some (bare text, rest)) in
    if c == b'"' then after_quote else unquoted

-- `,key=value` as often as a comma follows; the number bounds the rounds.
unfoldable pub read_symbols : ℕ → Text → Option (List (Text × Text) × Text)
unfolding read_name expect
read_symbols zero s = none
read_symbols (suc n) [] = none
read_symbols (suc n) (c ∷ s) =
    let further : Option (List (Text × Text) × Text) = (do
      (key, r) ← read_name s
      r' ← expect b'=' r
      (value, r'') ← read_name r'
      (pairs, rest) ← read_symbols n r''
      some ((key, value) ∷ pairs, rest)) in
    if c == b',' then further else some ([], c ∷ s)

unfoldable pub read_field : Text → Option ((Text × Value) × Text)
unfolding read_name read_value expect
read_field s = do
  (key, r) ← read_name s
  r' ← expect b'=' r
  (value, rest) ← read_value r'
  some ((key, value), rest)

-- `,key=value` as often as a comma follows, with field values.
unfoldable pub read_fields : ℕ → Text → Option (List (Text × Value) × Text)
unfolding read_field
read_fields zero s = none
read_fields (suc n) [] = none
read_fields (suc n) (c ∷ s) =
    let further : Option (List (Text × Value) × Text) = (do
      (field, r) ← read_field s
      (fields, rest) ← read_fields n r
      some (field ∷ fields, rest)) in
    if c == b',' then further else some ([], c ∷ s)

-- One row with its newline, and nothing behind it.
unfoldable pub read_row : Text → Option Row
unfolding read_name read_symbols read_field read_fields expect
read_row s = do
  (table, r) ← read_name s
  (symbols, r) ← read_symbols (length s) r
  r ← expect b' ' r
  (field, r) ← read_field r
  (fields, r) ← read_fields (length s) r
  r ← expect b' ' r
  (timestamp, r) ← read_name r
  r ← expect b'\n' r
  if is_empty r
      then some (record {
        table = table;
        symbols = symbols;
        fields = field ∷ fields;
        timestamp = timestamp;
      })
      else none

-- The symbols that are not None.
unfoldable pub present_symbols : List (Text × Option Text) → List (Text × Text)
present_symbols [] = []
present_symbols ((key, none) ∷ symbols) = present_symbols symbols
present_symbols ((key, some value) ∷ symbols) = (key, value) ∷ present_symbols symbols

unfoldable pub value_of : FieldValue → Option Value
unfolding integer
value_of null = none
value_of (boolean b) = some (bare (if b then codes "true" else codes "false"))
value_of (micros n) = some (bare (integer n ++ codes "t"))
value_of (int n) = some (bare (integer n ++ codes "i"))
value_of (float is_finite repr) = some (bare repr)
value_of (string text) = some (quoted text)

abbrev pub prepend_value : Text → Option Value → List (Text × Value) → List (Text × Value)
prepend_value key none rest = rest
prepend_value key (some v) rest = (key, v) ∷ rest

-- The fields that are not None, as they stand in a row.
unfoldable pub present_fields : List (Text × FieldValue) → List (Text × Value)
unfolding value_of
present_fields [] = []
present_fields ((key, value) ∷ fields) = prepend_value key (value_of value) (present_fields fields)

-- A character that has no meaning of its own in an unquoted value.
unfoldable pub is_plain : ℕ → Bool
unfolding ends_name
is_plain c = not (ends_name c || (c == b'\\') || (c == b'"'))

-- What Python's `repr` makes of a finite float is digits, letters and the characters `+-.`.
abbrev pub IsPlainFloat : FieldValue → Type 0
IsPlainFloat (float is_finite repr) = All (λ c. is_plain c ≡ true) repr
IsPlainFloat _ = Unit {0}

abbrev pub ArePlainFloats : List (Text × FieldValue) → Type 0
ArePlainFloats fields = All (λ f. IsPlainFloat f.1) fields
