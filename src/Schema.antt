-- ===== src/Schema.antt =====
-- The table schema of custom_components/hass_questdb_writer/schema.py. The transport's answers to
-- the queries are arguments; the texts of errors are not modelled but for the marker that `ensure`
-- looks for.
pub mod Owned
pub mod Members
pub mod Columns
pub mod Validation
pub mod Manager
pub mod Tests
use hass_questdb_writer.Prelude.{
  ℕ, Bool, true, false, not, ◌&&◌, ◌||◌, Option, none, some, List, [], ◌∷◌, ◌++◌, map,
  if◌then◌else◌, any_of, keep, find_by, Text, text_eq, is_empty, has_nul, Result, ok, err, codes,
  replace, join, ℤ, pos, negsuc, ltb, decimal,
}

-- `EXPECTED_COLUMNS`
abbrev pub expected_columns : List (Text × Text)
expected_columns =
    (codes "last_updated", codes "TIMESTAMP")
    ∷ (codes "entity_id", codes "SYMBOL")
    ∷ (codes "domain", codes "SYMBOL")
    ∷ (codes "state", codes "VARCHAR")
    ∷ (codes "attributes", codes "VARCHAR")
    ∷ (codes "event_id", codes "VARCHAR")
    ∷ (codes "context_id", codes "VARCHAR")
    ∷ (codes "ingested_at", codes "TIMESTAMP")
    ∷ (codes "last_changed", codes "TIMESTAMP")
    ∷ []

-- `DESIGNATED_COLUMN`
abbrev pub designated_column : Text
designated_column = codes "last_updated"

-- `UPSERT_KEY_COLUMNS`
abbrev pub upsert_key_columns : List Text
upsert_key_columns = codes "last_updated" ∷ codes "entity_id" ∷ []

-- `quote_identifier`
unfoldable pub quote_identifier : Text → Text
unfolding replace
quote_identifier value = codes "\"" ++ (replace b'"' (codes "\"\"") value ++ codes "\"")

-- `create_table_ddl`
unfoldable pub create_table_ddl : Text → Text
unfolding quote_identifier join
create_table_ddl table =
    codes "CREATE TABLE IF NOT EXISTS "
    ++ (quote_identifier table
        ++ (codes " ("
            ++ (join (codes ", ") (map (λ c. c.0 ++ (codes " " ++ c.1)) expected_columns)
                ++ (codes ") TIMESTAMP("
                    ++ (designated_column
                        ++ (codes ") PARTITION BY DAY WAL DEDUP UPSERT KEYS("
                            ++ (join (codes ", ") upsert_key_columns ++ codes ")")))))))

-- A row of SHOW COLUMNS, as far as it is read; `none` for one that is no list, is too short, or has
-- no text for its name or its type.
pub record Column : Type 0 where
  pub name : Text
  pub type_name : Text
  pub is_designated : Bool
  pub is_upsert_key : Bool

-- `SchemaError` and `SchemaMismatchError`
pub data SchemaError : Type 0 where
  malformed mismatch : SchemaError

-- `actual[name]`: the last row with the name.
unfoldable pub column_of : Text → List Column → Option Column
unfolding text_eq
column_of name [] = none
column_of name (c ∷ cs) =
    let later = column_of name cs in
    elim later [ some d ↦ some d | none ↦ if text_eq name c.name then some c else none ]

-- All rows, or `none` where one is malformed.
unfoldable pub read_rows : List (Option Column) → Option (List Column)
read_rows [] = some []
read_rows (none ∷ rows) = none
read_rows (some c ∷ rows) = elim (read_rows rows) [ none ↦ none | some cs ↦ some (c ∷ cs) ]

abbrev pub is_column : List Column → Text → Bool
is_column cs name = elim (column_of name cs) [ none ↦ false | some _ ↦ true ]

abbrev pub is_expected : Text → Bool
is_expected name = any_of (λ e. text_eq name e.0) expected_columns

-- `set(expected_types) - set(actual)`
unfoldable pub has_missing : List Column → Bool
unfolding any_of column_of
has_missing cs = any_of (λ e. not (is_column cs e.0)) expected_columns

-- `set(actual) - set(expected_types)`
unfoldable pub has_extra : List Column → Bool
unfolding any_of text_eq
has_extra = any_of (λ c. not (is_expected c.name))

abbrev pub has_type : Text → Option Column → Bool
has_type type_name none = true
has_type type_name (some c) = text_eq c.type_name type_name

unfoldable pub has_wrong_type : List Column → Bool
unfolding any_of column_of text_eq
has_wrong_type cs = any_of (λ e. not (has_type e.1 (column_of e.0 cs))) expected_columns

-- The rows that `actual` keeps: the last of each name.
unfoldable pub actual : List Column → List Column
unfolding any_of text_eq
actual [] = []
actual (c ∷ cs) =
    let rest = actual cs in if any_of (λ d. text_eq c.name d.name) cs then rest else c ∷ rest

-- `sorted(names) == sorted(expected)` for names that differ: the same set.
unfoldable pub same_names : List Text → List Text → Bool
unfolding any_of text_eq
same_names xs ys =
    not (any_of (λ x. not (any_of (text_eq x) ys)) xs)
    && not (any_of (λ y. not (any_of (text_eq y) xs)) ys)

unfoldable pub has_wrong_designated : List Column → Bool
unfolding actual keep same_names
has_wrong_designated cs = not (
    same_names (map (λ c. c.name) (keep (λ c. c.is_designated) (actual cs)))
      (designated_column ∷ []))

unfoldable pub has_wrong_upsert_keys : List Column → Bool
unfolding actual keep same_names
has_wrong_upsert_keys cs =
    not
      (same_names (map (λ c. c.name) (keep (λ c. c.is_upsert_key) (actual cs))) upsert_key_columns)

unfoldable pub has_problem : List Column → Bool
unfolding has_missing has_extra has_wrong_type has_wrong_designated has_wrong_upsert_keys
has_problem cs =
    has_missing cs
    || has_extra cs
    || has_wrong_type cs
    || has_wrong_designated cs
    || has_wrong_upsert_keys cs

abbrev pub validate_columns : Option (List Column) → Result SchemaError (Unit {0})
validate_columns none = err malformed
validate_columns (some cs) = if has_problem cs then err mismatch else ok tt

-- `validate_table_columns`; `none` stands for a dataset that is no list.
unfoldable pub validate_table_columns :
    Option (List (Option Column)) → Result SchemaError (Unit {0})
unfolding read_rows has_problem
validate_table_columns none = err malformed
validate_table_columns (some rows) = validate_columns (read_rows rows)
