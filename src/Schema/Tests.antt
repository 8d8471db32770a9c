-- ===== src/Schema/Tests.antt =====
-- A call of `ensure` of custom_components/hass_questdb_writer/schema.py for an owned table.
use hass_questdb_writer.Prelude.{
  ◌≡◌, refl, Bool, true, false, Option, some, List, [], ◌∷◌, Text, pos, codes, ok, err, has_nul,
  text_eq,
}
use hass_questdb_writer.Transport.{TransportError, permanent}
use hass_questdb_writer.Schema.{
  Column, quote_identifier, column_of, read_rows, validate_table_columns,
}
use hass_questdb_writer.Schema.Owned.{checked, owned}
use hass_questdb_writer.Schema.Validation.{validate_table_columns_lem}
use hass_questdb_writer.Schema.Manager.{Answers, Manager, shown, ttl_value, ensure}
use hass_questdb_writer.Schema.Manager.Ensured.{IsValidated, ensure-IsValidated}
use hass_questdb_writer.Schema.Manager.Retained.{
  IsRetained, sending, create_and_show, ensure-retention,
}

abbrev plain : Text → Text → Option Column
plain name type_name =
    some
      (record { name = name; type_name = type_name; is_designated = false; is_upsert_key = false })

abbrev key : Text → Text → Bool → Option Column
key name type_name designated = some (record {
  name = name;
  type_name = type_name;
  is_designated = designated;
  is_upsert_key = true;
})

abbrev owned_table : List (Option Column)
owned_table =
    key (codes "last_updated") (codes "TIMESTAMP") true
    ∷ key (codes "entity_id") (codes "SYMBOL") false
    ∷ plain (codes "domain") (codes "SYMBOL")
    ∷ plain (codes "state") (codes "VARCHAR")
    ∷ plain (codes "attributes") (codes "VARCHAR")
    ∷ plain (codes "event_id") (codes "VARCHAR")
    ∷ plain (codes "context_id") (codes "VARCHAR")
    ∷ plain (codes "ingested_at") (codes "TIMESTAMP")
    ∷ plain (codes "last_changed") (codes "TIMESTAMP")
    ∷ []

abbrev rejection : TransportError
rejection = record { kind = permanent; delivery_uncertain = false; status_code = some 400 }

-- A server that rejects the retention.
abbrev pub enterprise : Answers
enterprise = record {
  created = ok tt;
  columns = shown (some (some owned_table));
  ttl = ttl_value (pos 0);
  altered = err rejection;
}

abbrev pub weekly : Manager
weekly = record { retention_days = 7; ttl_rejected = false; sent = [] }

quoted_name : quote_identifier (codes "a\"b") ≡ codes "\"a\"\"b\""
unfolding quote_identifier
quoted_name = refl

owned_passes : validate_table_columns (some owned_table) ≡ ok tt
unfolding validate_table_columns text_eq
owned_passes = refl

enterprise_returns : (ensure (codes "hass") enterprise weekly).0 ≡ ok tt
unfolding ensure text_eq
enterprise_returns = refl

ensure-IsValidated_example : IsValidated enterprise
ensure-IsValidated_example = ensure-IsValidated (codes "hass") enterprise weekly enterprise_returns

ensure-retention_example :
    IsRetained
      (codes "hass")
      enterprise
      (pos 0)
      (sending (create_and_show (codes "hass")) weekly)
      (ensure (codes "hass") enterprise weekly)
unfolding has_nul
ensure-retention_example =
    ensure-retention (codes "hass") enterprise weekly (pos 0) refl refl
      (some owned_table, refl, refl, owned_passes) refl

validate_table_columns_lem_example :
    (cs : List Column) × (read_rows owned_table ≡ some cs)
    × ((name : Text) → checked (column_of name cs) ≡ owned name)
validate_table_columns_lem_example = validate_table_columns_lem owned_table owned_passes
