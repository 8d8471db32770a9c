-- ===== src/Schema/Owned.antt =====
-- The columns that custom_components/hass_questdb_writer/schema.py owns, name by name.
use hass_questdb_writer.Prelude.{
  Bool, Option, none, some, List, [], ◌∷◌, if◌then◌else◌, any_of, Text, text_eq,
}
use hass_questdb_writer.Schema.{Column, expected_columns, designated_column, upsert_key_columns}

-- What is checked of a column: its type, and whether it is the designated timestamp and an upsert
-- key.
abbrev pub Checked : Type 0
Checked = Text × Bool × Bool

abbrev pub checked : Option Column → Option Checked
checked none = none
checked (some c) = some (c.type_name, c.is_designated, c.is_upsert_key)

-- What the integration owns under a name, if anything.
unfoldable pub owned_in : List (Text × Text) → Text → Option Checked
unfolding any_of
owned_in [] name = none
owned_in ((n, t) ∷ es) name =
    if text_eq name n
    then some (
      t,
      any_of (text_eq name) (designated_column ∷ []),
      any_of (text_eq name) upsert_key_columns,
    )
    else owned_in es name

abbrev pub owned : Text → Option Checked
owned = owned_in expected_columns
